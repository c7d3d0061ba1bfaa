-- ===== src/Luxos/Schedule.antt =====
-- pocisys-hash-monitor/services/luxos_control.py: the daily low-power window and
-- `_evaluate_schedules`.
use gauge_umbrel_community.Prelude.{
  ℕ, ◌+◌, ◌*◌, Bool, true, false, not, ◌&&◌, ◌||◌, Option, none, some, List, [], ◌∷◌, Text, ltb,
  leb, ◌==◌, if◌then◌else◌, is_empty, text_eq, strip, put, pop, get_or,
}
use gauge_umbrel_community.Luxos.State.{
  LowMode, Target, low, full, Miner, Config, Action, Source, Catalog, Service,
}
use gauge_umbrel_community.Luxos.Monad.{Result, ok, err}
use gauge_umbrel_community.Luxos.Client.{Client}
use gauge_umbrel_community.Luxos.Profiles.{
  Level, find_profile, compare_profile_level, list_profiles, empty_snapshot,
}
use gauge_umbrel_community.Luxos.Execute.{Clock, execute}

-- `_minutes`
abbrev pub minutes : Option (ℕ × ℕ) → ℕ
minutes none = 0
minutes (some (h, m)) = h * 60 + m

-- `_low_window` at a minute of the local day.
unfoldable pub low_window : Miner → ℕ → Bool
low_window m current =
    let start = minutes m.low_time in
    let end = minutes m.full_time in
    if start == end
    then false
    else if ltb start end
    then leb start current && ltb current end
    else leb start current || ltb current end

unfoldable pub desired_target : Miner → ℕ → Target
unfolding low_window
desired_target m current = if low_window m current then low else full

abbrev pub target_eq : Target → Target → Bool
target_eq low low = true
target_eq low full = false
target_eq full low = false
target_eq full full = true

abbrev pub is_profile_mode : LowMode → Bool
is_profile_mode LowMode.profile = true
is_profile_mode _ = false

-- `expected_profile`; the empty text stands for none.
abbrev pub expected_profile : Miner → Target → Text
expected_profile m low = if is_profile_mode m.low_mode then m.low_profile else []
expected_profile m full = m.full_profile

abbrev pub target_action : Target → Action
target_action low = Action.low
target_action full = Action.full

-- What one miner's part of the loop reads: the minute of the day, the clock at the start, the clock
-- of `execute`, and the miner's answers.
pub record Round : Type 0 where
  pub minute : ℕ
  pub now : ℕ
  pub clock : Clock
  pub client : Client

abbrev pub cached_profile : ℕ → Service → Text
cached_profile id s = (get_or empty_snapshot (s.health_cache id)).current_profile

-- The `except` of the ceiling branch.
abbrev pub retry_ceiling : ℕ → ℕ → Service → Service
retry_ceiling now id s = record s {
  ceiling_retry_after = put id (now + 300000) s.ceiling_retry_after;
}

abbrev pub clear_ceiling : ℕ → Service → Service
clear_ceiling id s = record s { ceiling_retry_after = pop id s.ceiling_retry_after }

abbrev pub is_above : Option Level → Bool
is_above (some Level.above) = true
is_above (some Level.same) = false
is_above (some Level.below) = false
is_above none = false

-- The end of the `try` of the ceiling branch.
abbrev pub settle_ceiling : {A : Type 0} → ℕ → ℕ → Result A × Service → Service
settle_ceiling now id (ok a, s) = clear_ceiling id s
settle_ceiling now id (err e, s) = retry_ceiling now id s

-- The `try` once the catalog is there.
unfoldable pub compare_ceiling : Config → Round → Miner → Text → Result Catalog × Service → Service
compare_ceiling cfg r m current (err e, s) = retry_ceiling r.now m.id s
compare_ceiling cfg r m current (ok catalog, s) =
    if is_above (
      compare_profile_level (find_profile current catalog.profiles)
        (find_profile (strip m.full_profile) catalog.profiles))
    then settle_ceiling r.now m.id
        (execute cfg r.client r.clock m.id Action.full 0 Source.ceiling s)
    else clear_ceiling m.id s

unfoldable pub enforce_ceiling : Config → Round → Miner → Service → Service
unfolding compare_ceiling
enforce_ceiling cfg r m s =
    compare_ceiling cfg r m (cached_profile m.id s)
      (list_profiles cfg r.client r.clock.now m.id false s)

-- The branch of a miner without a schedule.
unfoldable pub check_ceiling : Config → Round → Miner → Service → Service
unfolding enforce_ceiling
check_ceiling cfg r m s =
    let current = cached_profile m.id s in
    let normal = strip m.full_profile in
    if not m.control_enabled || ltb r.now (get_or 0 (s.ceiling_retry_after m.id))
    then s
    else if is_empty current || is_empty normal || text_eq current normal
    then s
    else enforce_ceiling cfg r m s

abbrev pub applied_target : ℕ → Target → Service → Service
applied_target id desired s = record s {
  last_schedule_target = put id desired s.last_schedule_target;
  schedule_retry_after = pop id s.schedule_retry_after;
}

-- `self.last_schedule_target.get(id) == desired`
abbrev pub is_applied : ℕ → Target → Service → Bool
is_applied id desired s = elim (s.last_schedule_target id) [
  | none ↦ false
  | some t ↦ target_eq t desired
]

-- The end of the `try` of the schedule.
abbrev pub settle_target : {A : Type 0} → ℕ → ℕ → Target → Result A × Service → Service
settle_target now id desired (ok a, s) = applied_target id desired s
settle_target now id desired (err e, s) = record s {
  schedule_retry_after = put id (now + 300000) s.schedule_retry_after;
}

unfoldable pub attempt_target : Config → Round → Miner → Target → Service → Service
attempt_target cfg r m desired s =
    settle_target r.now m.id desired
      (execute cfg r.client r.clock m.id (target_action desired) 0 Source.schedule s)

-- The branch of a miner with a schedule.
unfoldable pub check_schedule : Config → Round → Miner → Service → Service
unfolding desired_target attempt_target
check_schedule cfg r m s =
    let desired = desired_target m r.minute in
    let current = cached_profile m.id s in
    let expected = expected_profile m desired in
    let known = not (is_empty expected) && not (is_empty current) in
    if is_profile_mode m.low_mode && not (is_empty expected) && text_eq current expected
    then applied_target m.id desired s
    else if is_applied m.id desired s && not (known && not (text_eq current expected))
    then s
    else if ltb r.now (get_or 0 (s.schedule_retry_after m.id))
    then s
    else attempt_target cfg r m desired s

-- One round of the loop of `_evaluate_schedules`.
unfoldable pub evaluate_miner : Config → Round → Miner → Service → Service
unfolding check_ceiling check_schedule
evaluate_miner cfg r m s =
    if m.schedule_enabled
    then check_schedule cfg r m s
    else if m.control_enabled
    then check_ceiling cfg r m s
    else s

-- `_miners`
unfoldable pub active_miners : List Miner → List Miner
active_miners [] = []
active_miners (m ∷ ms) =
    let rest = active_miners ms in if m.enabled && m.is_luxos then m ∷ rest else rest

unfoldable pub evaluate_all : Config → (ℕ → Round) → List Miner → Service → Service
unfolding evaluate_miner
evaluate_all cfg r [] s = s
evaluate_all cfg r (m ∷ ms) s = evaluate_all cfg r ms (evaluate_miner cfg (r m.id) m s)

unfoldable pub evaluate_schedules : Config → (ℕ → Round) → Service → Service
unfolding evaluate_all active_miners
evaluate_schedules cfg r s =
    if cfg.control_enabled then evaluate_all cfg r (active_miners cfg.miners) s else s
