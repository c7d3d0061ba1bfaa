-- ===== src/Luxos/Client.antt =====
-- pocisys-hash-monitor/services/luxos_control.py, `LuxOSClient`: the bounded commands. What the miner
-- answers to each request is an input.
use gauge_umbrel_community.Prelude.{
  ℕ, zero, suc, Bool, not, Option, List, [], ◌∷◌, map, min, Text, if◌then◌else◌,
}
use gauge_umbrel_community.Luxos.State.{
  Catalog, Command, reboot, profileset, ControlError, Snapshot,
}
use gauge_umbrel_community.Luxos.Monad.{
  ok, err, Method, pure, raise, or_raise, ◌>>=◌, ◌>>◌, raise_if,
}

-- The answers of one miner: the count of `asccount` (a missing or negative one is 0, none is a failed
-- request), the normalized profiles, whether a control session is free, which commands succeed, and
-- the snapshot of `chip_health`.
pub record Client : Type 0 where
  pub asccount : Option ℕ
  pub profiles : Option Catalog
  pub logon : Bool
  pub accepts : Command → Bool
  pub health : Option Snapshot

abbrev pub max_hashboards : ℕ
max_hashboards = 8

unfoldable pub board_count : Client → Method ℕ
board_count c = do n ← or_raise ControlError.client c.asccount; pure (min n max_hashboards)

-- The loop of `session_batch`: it stops at the first command that does not succeed.
unfoldable pub send_all : Client → ℕ → List Command → Method (Unit {0})
send_all c id [] s = (ok tt, s)
send_all c id (x ∷ xs) s =
    let s' = record s { sent = (id, x) ∷ s.sent } in
    let rest = send_all c id xs s' in if c.accepts x then rest else (err ControlError.client, s')

unfoldable pub session_batch : Client → ℕ → List Command → Method (Unit {0})
unfolding send_all
session_batch c id xs = do raise_if (not c.logon) ControlError.client; send_all c id xs

unfoldable pub set_profile_command : Client → ℕ → Text → Method (Unit {0})
unfolding session_batch
set_profile_command c id name = session_batch c id (profileset name ∷ [])

-- `list(range(n))`
abbrev pub range_from : ℕ → ℕ → List ℕ
range_from k zero = []
range_from k (suc n) = k ∷ range_from (suc k) n

unfoldable pub set_boards : Client → ℕ → List ℕ → ℕ → Method (Unit {0})
unfolding session_batch
set_boards c id [] delay = raise ControlError.no_boards
set_boards c id (b ∷ bs) delay = session_batch c id (map (λ x. reboot x delay) (b ∷ bs))

unfoldable pub restart_board : Client → ℕ → ℕ → ℕ → Method (Unit {0})
unfolding session_batch
restart_board c id board delay = session_batch c id (reboot board delay ∷ [])
