-- ===== src/Luxos/Rest.antt =====
-- pocisys-hash-monitor/services/luxos_control.py: a hashboard whose restart was attempted is left alone
-- for six hours.
use gauge_umbrel_community.Prelude.{ℕ, ◌+◌, ◌<◌, ◌≡◌, ◌≢◌, true, List, [], ◌∷◌, any}
use gauge_umbrel_community.Luxos.State.{Miner, Config, Board, Command, reboot, profileset, Service}
use gauge_umbrel_community.Luxos.Client.{Client}
use gauge_umbrel_community.Luxos.Sends.{Extends, Sends}
use gauge_umbrel_community.Luxos.Recovery.{Recovery, recover_boards, drop_absent, reconfigure}
use gauge_umbrel_community.Luxos.Reconfigure.{is_active}

-- Any command but one for the hashboard `j`.
abbrev pub NotBoard : ℕ → ℕ × Command → Type 0
NotBoard j (i, reboot b d) = b ≢ j
NotBoard j (i, profileset name) = ⊥

-- What a check does to the hashboard `j`: nothing is sent to it, and its attempt stays noted.
abbrev pub Rests : Miner → ℕ → Service → Service → Type 0
Rests m j s s' =
    Extends (NotBoard j) s.sent s'.sent × (s'.last_auto_attempt m.id j ≡ s.last_auto_attempt m.id j)

-- A health check of a miner, with what it read and the boards of its snapshot; or a change of the
-- configuration.
pub data CareEvent : Type 0 where
  checked : Recovery → List Board → CareEvent
  configured : List Miner → CareEvent

pub run_events : Config → Miner → List CareEvent → Service → Service
run_events cfg m [] s = s
run_events cfg m (checked v bs ∷ es) s =
    run_events cfg m es (drop_absent m bs (recover_boards cfg v m bs s))
run_events cfg m (configured ms ∷ es) s = run_events cfg m es (reconfigure ms s)

-- A check in the six hours after `t`, or a configuration in which the miner is an enabled LuxOS miner.
abbrev pub IsWithin : Miner → ℕ → CareEvent → Type 0
IsWithin m t (checked v bs) = v.now < t + 21600000
IsWithin m t (configured ms) = any (is_active m.id) ms ≡ true
