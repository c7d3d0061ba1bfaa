-- ===== src/Luxos/Recovery.antt =====
-- pocisys-hash-monitor/services/luxos_control.py: `_process_auto_recovery`, `refresh_health` and
-- `reconfigure`.
use gauge_umbrel_community.Prelude.{
  ℕ, ◌+◌, Bool, true, false, not, ◌&&◌, ◌||◌, Option, none, some, List, [], ◌∷◌, ltb, leb, ◌==◌,
  if◌then◌else◌, any, put, put_pair, pop_pair, get_or,
}
use gauge_umbrel_community.Luxos.State.{
  Miner, Config, Action, Source, BoardStatus, healthy, warning, unhealthy, unknown, Board, Snapshot,
  Alert, Service,
}
use gauge_umbrel_community.Luxos.Monad.{Result, ok, err}
use gauge_umbrel_community.Luxos.Client.{Client}
use gauge_umbrel_community.Luxos.Profiles.{empty_snapshot}
use gauge_umbrel_community.Luxos.Execute.{Clock, execute}
use gauge_umbrel_community.Luxos.Schedule.{Round, low_window}

-- What `_process_auto_recovery` reads once: the clock at its start, the clock of the warm-up test,
-- whether recovery is active, and the miner's answers.
pub record Recovery : Type 0 where
  pub now : ℕ
  pub warm_clock : ℕ
  pub active : Bool
  pub clock : Clock
  pub client : Client

abbrev pub is_healthy : BoardStatus → Bool
is_healthy healthy = true
is_healthy _ = false

abbrev pub is_unknown : BoardStatus → Bool
is_unknown unknown = true
is_unknown _ = false

-- `board.get("status") in {"warning", "unhealthy"}`
abbrev pub is_degraded : BoardStatus → Bool
is_degraded warning = true
is_degraded unhealthy = true
is_degraded healthy = false
is_degraded unknown = false

abbrev pub alert_if : Bool → Alert → Service → Service
alert_if b a s = if b then record s { alerts = a ∷ s.alerts } else s

-- The branch of a board that is being observed after a restart.
unfoldable pub observe_incident : Config → Recovery → Miner → Board → ℕ → Service → Service
observe_incident cfg v m b until s =
    let counted = record s { bad_confirmations = put_pair m.id b.id 0 s.bad_confirmations } in
    let told =
      alert_if cfg.chip_health_alerts (Alert.recovery_complete m.id b.id (is_healthy b.status))
        counted in
    if ltb v.now until || is_unknown b.status
    then counted
    else record told { recovery_incidents = pop_pair m.id b.id told.recovery_incidents }

-- `self.bad_confirmations[key]` after the check.
unfoldable pub count_bad : Recovery → Miner → Board → Service → Service
count_bad v m b s = record s {
  bad_confirmations =
      put_pair m.id b.id
        (if is_degraded b.status && v.active
          then get_or 0 (s.bad_confirmations m.id b.id) + 1
          else 0)
        s.bad_confirmations;
}

-- `now - self.last_auto_attempt.get(key, -COOLDOWN) < COOLDOWN`; the cooldown is six hours.
abbrev pub is_cooling : ℕ → Option ℕ → Bool
is_cooling now none = false
is_cooling now (some at) = ltb now (at + 21600000)

-- The tests that must pass before a board is restarted.
abbrev pub may_restart : Recovery → Miner → Board → Service → Bool
may_restart v m b s =
    v.active
    && leb 3 (get_or 0 (s.bad_confirmations m.id b.id))
    && leb (s.started_at + 300000) v.warm_clock
    && not (ltb v.now (get_or 0 (s.auto_suppress_until m.id b.id)))
    && not (is_cooling v.now (s.last_auto_attempt m.id b.id))

-- The end of the restart: a success opens an incident.
abbrev pub settle_restart : {A : Type 0} → Config → ℕ → ℕ → ℕ → Result A × Service → Service
settle_restart cfg now id board (ok a, s) = record s {
  auto_suppress_until = put_pair id board (now + 600000) s.auto_suppress_until;
  recovery_incidents = put_pair id board (now + 600000) s.recovery_incidents;
  bad_confirmations = put_pair id board 0 s.bad_confirmations;
}
settle_restart cfg now id board (err e, s) =
    alert_if cfg.chip_health_alerts (Alert.recovery_failed id board)
      (record s { auto_suppress_until = put_pair id board (now + 60000) s.auto_suppress_until })

-- The state in which the restart is requested: the attempt is noted before any request.
abbrev pub noted_restart : Config → ℕ → Miner → Board → Service → Service
noted_restart cfg now m b s =
    alert_if cfg.chip_health_alerts (Alert.recovery_detected m.id b.id b.low_chips)
      (record s { last_auto_attempt = put_pair m.id b.id now s.last_auto_attempt })

unfoldable pub restart_unhealthy : Config → Recovery → Miner → Board → Service → Service
restart_unhealthy cfg v m b s = settle_restart cfg v.now m.id b.id (
    execute cfg v.client v.clock m.id Action.restart_board b.id Source.recovery
      (noted_restart cfg v.now m b s))

-- The branch of a board that is not being observed.
unfoldable pub check_board_health : Config → Recovery → Miner → Board → Service → Service
check_board_health cfg v m b s =
    let counted = count_bad v m b s in
    if may_restart v m b counted then restart_unhealthy cfg v m b counted else counted

-- One round of the loop, once the board's incident is read.
unfoldable pub recover_from : Config → Recovery → Miner → Board → Option ℕ → Service → Service
recover_from cfg v m b (some until) s = observe_incident cfg v m b until s
recover_from cfg v m b none s = check_board_health cfg v m b s

unfoldable pub recover_board : Config → Recovery → Miner → Board → Service → Service
unfolding recover_from
recover_board cfg v m b s = recover_from cfg v m b (s.recovery_incidents m.id b.id) s

unfoldable pub recover_boards : Config → Recovery → Miner → List Board → Service → Service
recover_boards cfg v m [] s = s
recover_boards cfg v m (b ∷ bs) s = recover_boards cfg v m bs (recover_board cfg v m b s)

-- The counters of boards that the snapshot no longer lists are dropped.
abbrev pub drop_absent : Miner → List Board → Service → Service
drop_absent m bs s = record s {
  bad_confirmations =
      λ i j. if i == m.id && not (any (λ b. b.id == j) bs) then none else s.bad_confirmations i j;
}

-- `recovery_active`
unfoldable pub recovery_active : Config → Miner → ℕ → ℕ → Service → Bool
unfolding low_window
recovery_active cfg m now minute s =
    cfg.control_enabled
    && m.auto_recover
    && not (ltb now (get_or 0 (s.profile_suppress_until m.id)))
    && not (m.schedule_enabled && low_window m minute)

unfoldable pub process_auto_recovery : Config → Round → ℕ → Miner → List Board → Service → Service
process_auto_recovery cfg r warm_clock m bs s =
    let v : Recovery = record {
      now = r.now;
      warm_clock = warm_clock;
      active = recovery_active cfg m r.now r.minute s;
      clock = r.clock;
      client = r.client;
    } in
    drop_absent m bs (recover_boards cfg v m bs s)

-- `refresh_health`, at the clock of the round; its answer is the cache entry that it leaves.
unfoldable pub refresh_health : Config → Round → ℕ → Bool → Miner → Service → Service
refresh_health cfg r warm_clock force m s =
    let due = record s { health_due = put m.id (r.now + 60000) s.health_due } in
    let previous = record (get_or empty_snapshot (s.health_cache m.id)) { failed = true } in
    let failed_state = record due { health_cache = put m.id previous s.health_cache } in
    let fresh =
      λ (snapshot : Snapshot). record due { health_cache = put m.id snapshot s.health_cache } in
    if not force && ltb r.now (get_or 0 (s.health_due m.id)) then s else elim r.client.health [
      | none ↦ failed_state
      | some snapshot ↦ process_auto_recovery cfg r warm_clock m snapshot.boards (fresh snapshot)
    ]

-- `reconfigure`: what belongs to a miner that is no active LuxOS miner is dropped, its lock too.
unfoldable pub reconfigure : List Miner → Service → Service
reconfigure ms s =
    let valid = λ (id : ℕ). any (λ m. m.enabled && m.is_luxos && m.id == id) ms in
    record s {
      health_cache = λ i. if valid i then s.health_cache i else none;
      profile_cache = λ i. if valid i then s.profile_cache i else none;
      health_due = λ i. if valid i then s.health_due i else none;
      last_action_attempt = λ i. if valid i then s.last_action_attempt i else none;
      last_schedule_target = λ i. if valid i then s.last_schedule_target i else none;
      schedule_retry_after = λ i. if valid i then s.schedule_retry_after i else none;
      ceiling_retry_after = λ i. if valid i then s.ceiling_retry_after i else none;
      profile_suppress_until = λ i. if valid i then s.profile_suppress_until i else none;
      locked = λ i. if valid i then s.locked i else false;
      bad_confirmations = λ i j. if valid i then s.bad_confirmations i j else none;
      last_auto_attempt = λ i j. if valid i then s.last_auto_attempt i j else none;
      auto_suppress_until = λ i j. if valid i then s.auto_suppress_until i j else none;
      recovery_incidents = λ i j. if valid i then s.recovery_incidents i j else none;
    }
