-- ===== src/Luxos/Tests.antt =====
-- pocisys-hash-monitor/services/luxos_control.py: the theorems at concrete inputs, and runs of the
-- model.
use gauge_umbrel_community.Prelude.{
  ◌≤◌, ℕ, ◌≡◌, ◌⊎◌, refl, true, false, none, some, List, [], ◌∷◌, arith, Text, text_eq, strip, pos,
  negsuc, ltb,
}
use gauge_umbrel_community.Luxos.State.{
  LowMode, Miner, Config, Profile, Catalog, Board, BoardStatus, Action, Source, ControlError,
  Command, Service,
}
use gauge_umbrel_community.Luxos.Monad.{ok, err}
use gauge_umbrel_community.Luxos.Client.{Client}
use gauge_umbrel_community.Luxos.Profiles.{find_miner, find_profile, set_profile}
use gauge_umbrel_community.Luxos.Execute.{
  Clock, begin_action, perform, curtail, end_action, execute,
}
use gauge_umbrel_community.Luxos.Execute.Guards.{begun}
use gauge_umbrel_community.Luxos.Schedule.{minutes, low_window}
use gauge_umbrel_community.Luxos.Recovery.{
  Recovery, recover_board, reconfigure, check_board_health, count_bad, restart_unhealthy,
}
use gauge_umbrel_community.Luxos.Sends.{Extends}
use gauge_umbrel_community.Luxos.Window.{minutes_after, low_window-eq-cyclic}
use gauge_umbrel_community.Luxos.Cooldown.{
  act, here, next, reconfigured, begin_again_too_soon, begin_again_busy,
}
use gauge_umbrel_community.Luxos.Restarts.{MayRestart}
use gauge_umbrel_community.Luxos.Streak.{BoardCheck, bad_streak, run_board, restart_needs_three}
use gauge_umbrel_community.Luxos.Rest.{CareEvent, checked, configured}
use gauge_umbrel_community.Luxos.Ceiling.{rows, IsSafe}
use gauge_umbrel_community.Luxos.Ceiling.Actions.{execute_guarded}
use gauge_umbrel_community.Luxos.Execute.Guards.{Passes}
use gauge_umbrel_community.Luxos.Reconfigure.{reconfigure_loses_lock}

abbrev miner : Miner
miner = record {
  id = 1;
  enabled = true;
  is_luxos = true;
  control_enabled = true;
  schedule_enabled = true;
  auto_recover = true;
  low_mode = LowMode.profile;
  low_time = some (21, 30);
  full_time = some (6, 0);
  low_profile = 97 ∷ [];
  full_profile = 98 ∷ [];
}

abbrev config : Config
config = record {
  miners = miner ∷ [];
  control_enabled = true;
  chip_health_alerts = true;
  control_alerts = true;
}

abbrev row : Text → ℕ → Profile
row name watts = record {
  name = name;
  watts = some (pos watts);
  hashrate = none;
  frequency = none;
  step = some (negsuc 0);
}

abbrev catalog : Catalog
catalog = record { profiles = row (97 ∷ []) 2000 ∷ row (98 ∷ []) 3000 ∷ []; current = 98 ∷ [] }

abbrev client : Client
client = record {
  asccount = some 3;
  profiles = some catalog;
  logon = true;
  accepts = λ command. true;
  health = none;
}

abbrev clock : ℕ → Clock
clock now = record { now = now; locked_at = now; later = now }

abbrev service : Service
service = record {
  health_cache = λ i. none;
  profile_cache = λ i. none;
  health_due = λ i. none;
  bad_confirmations = λ i j. some 2;
  last_auto_attempt = λ i j. none;
  auto_suppress_until = λ i j. none;
  recovery_incidents = λ i j. none;
  profile_suppress_until = λ i. none;
  last_action_attempt = λ i. none;
  last_schedule_target = λ i. none;
  schedule_retry_after = λ i. none;
  ceiling_retry_after = λ i. none;
  recent_actions = [];
  locked = λ i. false;
  started_at = 0;
  sent = [];
  alerts = [];
}

-- The curtailed profile is set on an armed miner.
curtail_sends :
    (execute config client (clock 1000) 1 Action.low 0 Source.manual service).1.sent
    ≡ (1, Command.profileset (97 ∷ [])) ∷ []
unfolding execute begin_action perform curtail set_profile end_action strip text_eq find_miner
    find_profile
curtail_sends = refl

execute_guarded_example :
    ((e : ControlError) × (execute config client (clock 1000) 1 Action.low 0 Source.manual service
        ≡ (err e, service)))
    ⊎ ((m : Miner) × (m.enabled ≡ true)
        × (m.is_luxos ≡ true)
        × (m.id ≡ 1)
        × Passes config (clock 1000) 1 Source.manual service m
        × Extends
            (IsSafe (rows client) m)
            []
            (execute config client (clock 1000) 1 Action.low 0 Source.manual service).1.sent)
execute_guarded_example =
    execute_guarded config client (clock 1000) 1 Action.low 0 Source.manual service

begins :
    begin_action config (clock 1000) 1 Source.manual service
    ≡ (ok miner, begun (clock 1000) 1 service)
unfolding begin_action find_miner
begins = refl

begin_again_too_soon_example :
    (e : ControlError) × (begin_action config
        (clock 9000)
        1
        Source.schedule
        (begun (clock 1000) 1 service)
      ≡ (err e, begun (clock 1000) 1 service))
begin_again_too_soon_example =
    begin_again_too_soon config (clock 1000) (clock 9000) 1 Source.manual Source.schedule miner
      service begins here (omega arith)

-- The miner's curtailed profile is set.
abbrev acted : Service
acted = (perform config client (clock 2000) miner Action.low 0 (begun (clock 1000) 1 service)).1

begin_again_busy_example :
    (e : ControlError) × (begin_action config
        (clock 90000)
        1
        Source.schedule
        (reconfigure (miner ∷ []) acted)
      ≡ (err e, reconfigure (miner ∷ []) acted))
begin_again_busy_example =
    begin_again_busy config (clock 1000) (clock 90000) 1 Source.manual Source.schedule miner service
      begins
      (next (next here (act client (clock 2000) miner Action.low 0 refl))
        (reconfigured (miner ∷ []) refl refl))

low_window-eq-cyclic_example :
    low_window miner 30
    ≡ ltb
        (minutes_after (minutes miner.low_time) 30)
        (minutes_after (minutes miner.low_time) (minutes miner.full_time))
low_window-eq-cyclic_example =
    low_window-eq-cyclic miner 30 (omega arith) (omega arith) (omega arith)

abbrev board : Board
board = record { id = 2; status = BoardStatus.unhealthy; low_chips = 4 }

abbrev check : ℕ → Recovery
check now = record {
  now = now;
  warm_clock = now;
  active = true;
  clock = clock now;
  client = client;
}

abbrev uncounted : Service
uncounted = record service { bad_confirmations = λ i j. none }

abbrev bad_check : ℕ → BoardCheck
bad_check now = record { read = check now; status = BoardStatus.unhealthy; low_chips = 4 }

-- Two checks that found the board degraded.
abbrev bad_checks : List BoardCheck
bad_checks = bad_check 460000 ∷ bad_check 400000 ∷ []

restart_needs_three_example :
    ((3 ≤ bad_streak (bad_check 520000 ∷ bad_checks))
      × MayRestart (check 520000) miner board (run_board config miner 2 bad_checks uncounted))
    ⊎ (((run_board config miner 2 (bad_check 520000 ∷ bad_checks) uncounted).sent
          ≡ (run_board config miner 2 bad_checks uncounted).sent)
        × ((run_board config miner 2 (bad_check 520000 ∷ bad_checks) uncounted).last_auto_attempt
            ≡ (run_board config miner 2 bad_checks uncounted).last_auto_attempt))
restart_needs_three_example =
    restart_needs_three config miner 2 (bad_check 520000) bad_checks uncounted refl

-- The third check restarts the board.
third_restarts :
    (run_board config miner 2 (bad_check 520000 ∷ bad_checks) uncounted).sent
    ≡ (1, Command.reboot 2 10) ∷ []
unfolding run_board recover_board check_board_health count_bad restart_unhealthy execute
    begin_action end_action perform
third_restarts = refl

abbrev attempted : Service
attempted = record service { last_auto_attempt = λ i j. some 400000 }

abbrev care : List CareEvent
care =
    checked (check 700000) (board ∷ [])
    ∷ configured (miner ∷ [])
    ∷ checked (check 9000000) (board ∷ [])
    ∷ []

reconfigure_loses_lock_example :
    let s' = reconfigure (miner ∷ []) (reconfigure [] (begun (clock 1000) 1 service)) in
    begin_action config (clock 2000) 1 Source.manual s' ≡ (ok miner, begun (clock 2000) 1 s')
unfolding find_miner
reconfigure_loses_lock_example =
    reconfigure_loses_lock config [] (clock 1000) (clock 2000) 1 Source.manual Source.manual miner
      service refl refl refl refl begins
