-- ===== src/Luxos/Ceiling/Actions.antt =====
-- pocisys-hash-monitor/services/luxos_control.py: the commands that the actions of `execute` send.
use gauge_umbrel_community.Prelude.{
  ℕ, ◌≤◌, ◌<◌, ◌≡◌, ◌⊎◌, inl, inr, refl, true, [], ◌∷◌, arith, Bool-cases, ap, Text, strip,
  is_empty,
}
use gauge_umbrel_community.Luxos.State.{
  LowMode, Target, Miner, Config, Command, reboot, ControlError, Message, Action, Source, Service,
  board_restarted, board_started,
}
use gauge_umbrel_community.Luxos.Monad.{Result, ok, err}
use gauge_umbrel_community.Luxos.Client.{
  Client, board_count, session_batch, set_boards, restart_board, range_from,
}
use gauge_umbrel_community.Luxos.Profiles.{set_profile, restore_boards, restore_full}
use gauge_umbrel_community.Luxos.Execute.{
  Clock, check_board, start_board, stop_board, curtail, perform, end_action, execute,
}
use gauge_umbrel_community.Luxos.Execute.Guards.{Passes, begun, execute-cases, find_miner-eq-some}
use gauge_umbrel_community.Luxos.Sends.{
  Extends, Extends-refl, Sends, Sends-bind, Sends-session_batch, Sends-set_boards,
}
use gauge_umbrel_community.Luxos.Ceiling.{
  rows, IsSafe, after_quiet, board_count-quiet, board_count-le, set_profile-Sends,
}

pub check_board-quiet : (c : Client) (b : ℕ) (s : Service) → (check_board c b s).1 ≡ s
unfolding check_board
check_board-quiet c b s = ground arith

-- A board that passes the checks is one of those that the miner reports.
check_board-ok :
    (c : Client) (b : ℕ) (s : Service) {u : Unit {0}} → (check_board c b s).0 ≡ ok u → b < 8
unfolding check_board
check_board-ok c b s h = ground arith

module _ (cfg : Config) (c : Client) (k : Clock) (m : Miner) where
  abbrev P : ℕ × Command → Type 0
  P = IsSafe (rows c) m

  start_board-Sends :
      (b : ℕ) (message : Message) (s : Service) → Sends P (start_board c k m.id b message) s
  unfolding start_board restart_board
  start_board-Sends b message s =
      after_quiet P (check_board c b) _ s (ap (λ t. t.sent) (check_board-quiet c b s)) λ u checked.
        Sends-bind P (session_batch c m.id (reboot b 10 ∷ [])) _ (check_board c b s).1
          (Sends-session_batch P c m.id (reboot b 10 ∷ []) (check_board c b s).1
            ((refl, check_board-ok c b s checked, inr refl), tt))
          λ _ _. Extends-refl P _

  stop_board-Sends : (b : ℕ) (s : Service) → Sends P (stop_board c m.id b) s
  unfolding stop_board restart_board
  stop_board-Sends b s =
      after_quiet P (check_board c b) _ s (ap (λ t. t.sent) (check_board-quiet c b s)) λ u checked.
        Sends-bind P (session_batch c m.id (reboot b 0 ∷ [])) _ (check_board c b s).1
          (Sends-session_batch P c m.id (reboot b 0 ∷ []) (check_board c b s).1
            ((refl, check_board-ok c b s checked, inl refl), tt))
          λ _ _. Extends-refl P _

  boards-Sends :
      (n d : ℕ) (s : Service)
      → n ≤ 8
      → (d ≡ 0) ⊎ (d ≡ 10)
      → Sends P (set_boards c m.id (range_from 0 n) d) s
  boards-Sends n d s le delay = Sends-set_boards P c m.id n d s (λ b lt. (refl, omega arith, delay))

  curtail-Sends : (o : LowMode) (s : Service) → m.low_mode ≡ o → Sends P (curtail cfg c k m) s
  unfolding curtail
  curtail-Sends LowMode.boards_off s e = rw e (
      after_quiet P (board_count c) _ s (ap (λ t. t.sent) (board_count-quiet c s)) λ n counted.
        Sends-bind P (set_boards c m.id (range_from 0 n) 0) _ (board_count c s).1
          (boards-Sends n 0 (board_count c s).1 (board_count-le c s counted) (inl refl))
          λ _ _. Extends-refl P _)
  curtail-Sends LowMode.profile s e =
      rw e (set_profile-Sends cfg c k.later m m.low_profile Target.low s)
  curtail-Sends LowMode.other s e =
      rw e (set_profile-Sends cfg c k.later m m.low_profile Target.low s)

  restore_boards-Sends :
      (clock : ℕ) (name : Text) (s : Service) → Sends P (restore_boards cfg c clock m name) s
  unfolding restore_boards
  restore_boards-Sends clock name s =
      after_quiet P (board_count c) _ s (ap (λ t. t.sent) (board_count-quiet c s)) λ n counted.
        let s₁ = (board_count c s).1 in
        Sends-bind P (set_profile cfg c clock m name Target.full) _ s₁
          (set_profile-Sends cfg c clock m name Target.full s₁)
          λ message _.
            let s₂ = (set_profile cfg c clock m name Target.full s₁).1 in
            Sends-bind P (set_boards c m.id (range_from 0 n) 10) _ s₂
              (boards-Sends n 10 s₂ (board_count-le c s counted) (inr refl)) λ _ _. Extends-refl P _

  restore_full-Sends :
      (o : LowMode) (clock : ℕ) (s : Service)
      → m.low_mode ≡ o
      → Sends P (restore_full cfg c clock m) s
  unfolding restore_full
  restore_full-Sends o clock s e = elim (Bool-cases (is_empty (strip m.full_profile))) [
    | inl missing ↦ rw missing (Extends-refl P s.sent)
    | inr named ↦ rw named (by_mode o e)
  ]
    where
      name : Text
      name = strip m.full_profile

      by_mode :
          (x : LowMode)
          → m.low_mode ≡ x
          → Sends P
              (elim m.low_mode [
                | LowMode.boards_off ↦ restore_boards cfg c clock m name
                | _ ↦ set_profile cfg c clock m name Target.full
              ])
              s
      by_mode LowMode.boards_off x = rw x (restore_boards-Sends clock name s)
      by_mode LowMode.profile x = rw x (set_profile-Sends cfg c clock m name Target.full s)
      by_mode LowMode.other x = rw x (set_profile-Sends cfg c clock m name Target.full s)

  perform-Sends : (a : Action) (b : ℕ) (s : Service) → Sends P (perform cfg c k m a b) s
  unfolding perform
  perform-Sends Action.restart_board b s = start_board-Sends b (board_restarted b) s
  perform-Sends Action.board_off b s = stop_board-Sends b s
  perform-Sends Action.board_on b s = start_board-Sends b (board_started b) s
  perform-Sends Action.low b s = curtail-Sends m.low_mode s refl
  perform-Sends Action.full b s = restore_full-Sends m.low_mode k.later s refl
  perform-Sends Action.unsupported b s = Extends-refl P s.sent

pub end_action-sent :
    (cfg : Config) (id : ℕ) (a : Action) (source : Source) (r : Result Message × Service)
    → (end_action cfg id a source r).1.sent ≡ r.1.sent
unfolding end_action
end_action-sent cfg id a source (ok x, s) = ground arith
end_action-sent cfg id a source (err e, s) = ground arith

-- `execute` raises and leaves the whole state as it was, or a miner of this id is enabled, is a LuxOS
-- miner, is armed for the source while control mode is on, has had no attempt in the last fifteen
-- seconds and no running action; and then each command that it sends goes to this miner and is either
-- a restart of a hashboard below 8, off at once or on after ten seconds, or a profile that the
-- miner offers and that is the normal profile, or the curtailed one while the catalog proves it no
-- higher than the normal one.
pub execute_guarded :
    (cfg : Config) (c : Client) (k : Clock) (id : ℕ) (a : Action) (board : ℕ) (source : Source)
    (s : Service)
    → ((e : ControlError) × (execute cfg c k id a board source s ≡ (err e, s)))
      ⊎ ((m : Miner) × (m.enabled ≡ true)
          × (m.is_luxos ≡ true)
          × (m.id ≡ id)
          × Passes cfg k id source s m
          × Extends (IsSafe (rows c) m) s.sent (execute cfg c k id a board source s).1.sent)
execute_guarded cfg c k id a board source s = elim (execute-cases cfg c k id a board source s) [
  | inl refused ↦ inl refused
  | inr (m, ran, guards) ↦
      let (enabled, luxos, same) = find_miner-eq-some id cfg.miners guards.found in
      inr (
        m,
        enabled,
        luxos,
        same,
        guards,
        rw (ran, end_action-sent cfg id a source (perform cfg c k m a board (begun k id s)))
            (perform-Sends cfg c k m a board (begun k id s)),
      )
]
