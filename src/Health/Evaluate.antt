-- ===== src/Health/Evaluate.antt =====
-- pocisys-hash-monitor/services/health.py: `evaluate` and `reconfigure`.
use gauge_umbrel_community.Prelude.{
  ℕ, ◌+◌, Bool, true, false, not, ◌&&◌, List, [], ◌∷◌, ◌++◌, Option, none, some, Text, text_eq,
  is_empty, ltb, leb, ◌==◌, if◌then◌else◌, take, filter, any, get_or, put,
}
use gauge_umbrel_community.Health.State.{
  Severity, HealthState, Code, Reason, Status, Limits, Tracker, Transition, Engine,
}
use gauge_umbrel_community.Health.Signals.{reason, signals}

unfoldable pub code_tag : Code → ℕ
code_tag Code.hashrate_below_expected = 0
code_tag Code.high_hardware_error_rate = 1
code_tag Code.asic_temperature_critical = 2
code_tag Code.asic_temperature_warning = 3
code_tag Code.api_offline = 4
code_tag Code.recovery_pending = 5
code_tag (Code.chip_not_responding _) = 6
code_tag (Code.chip_score_low _) = 7
code_tag (Code.chip_warning _) = 8

unfoldable pub code_name : Code → Text
code_name (Code.chip_not_responding name) = name
code_name (Code.chip_score_low name) = name
code_name (Code.chip_warning name) = name
code_name _ = []

-- Codes are compared as the texts that they stand for.
unfoldable pub code_eq : Code → Code → Bool
code_eq c d = code_tag c == code_tag d && text_eq (code_name c) (code_name d)

unfoldable pub signalled : Code → List Reason → Bool
unfolding code_eq
signalled c rs = any (λ r. code_eq c r.code) rs

-- `candidate_map[code] = item`: a later item takes the place of an earlier one.
unfoldable pub put_candidate : Reason → List Reason → List Reason
put_candidate r [] = r ∷ []
put_candidate r (x ∷ xs) =
    let rest = put_candidate r xs in if code_eq r.code x.code then r ∷ xs else x ∷ rest

unfoldable pub put_candidates : List Reason → List Reason → List Reason
put_candidates [] acc = acc
put_candidates (r ∷ rs) acc = put_candidates rs (put_candidate r acc)

unfoldable pub candidate_map : List Reason → List Reason
candidate_map rs = put_candidates rs []

-- `counts`: one more than before for each candidate, and no entry for any other code.
unfoldable pub count_rules : List Reason → (Code → Option ℕ) → Code → Option ℕ
count_rules candidates old c = if signalled c candidates then some (get_or 0 (old c) + 1) else none

unfoldable pub is_unhealthy : Severity → Bool
is_unhealthy Severity.unhealthy = true
is_unhealthy Severity.warning = false

unfoldable pub confirmed_warning : (Code → Option ℕ) → List Reason → List Reason
confirmed_warning counts rs = filter (λ r. leb 2 (get_or 0 (counts r.code))) rs

unfoldable pub confirmed_unhealthy : (Code → Option ℕ) → List Reason → List Reason
confirmed_unhealthy counts rs =
    filter (λ r. leb 3 (get_or 0 (counts r.code)) && is_unhealthy r.severity) rs

unfoldable pub is_alarmed : HealthState → Bool
is_alarmed HealthState.warning = true
is_alarmed HealthState.unhealthy = true
is_alarmed _ = false

-- `"Healthy" if supported else "Unknown"`
unfoldable pub calm_state : ℕ → HealthState
calm_state supported = if ltb 0 supported then HealthState.healthy else HealthState.unknown

unfoldable pub settle : HealthState → List Reason → (Code → Option ℕ) → ℕ → Tracker
settle state reasons counts good = record {
  state = state;
  rule_counts = counts;
  good_count = good;
  reasons = reasons;
}

-- The branch of a round without candidates.
unfoldable pub clean_round : ℕ → (Code → Option ℕ) → Tracker → Tracker
clean_round supported counts t =
    if is_alarmed t.state && ltb (t.good_count + 1) 2
    then settle t.state (reason Code.recovery_pending Severity.warning ∷ []) counts
        (t.good_count + 1)
    else settle (calm_state supported) [] counts (t.good_count + 1)

-- The branch of a round with candidates, none of them confirmed.
unfoldable pub pending_round : ℕ → (Code → Option ℕ) → Tracker → Tracker
pending_round supported counts t =
    if is_alarmed t.state
    then settle t.state t.reasons counts 0
    else settle (calm_state supported) [] counts 0

-- `classify` is the branch of a miner that answers, given the candidates.
unfoldable pub classify : List Reason → ℕ → Tracker → Tracker
unfolding settle clean_round pending_round candidate_map count_rules confirmed_warning
    confirmed_unhealthy
classify candidates supported t =
    let items = candidate_map candidates in
    let counts : (Code → Option ℕ) = count_rules items t.rule_counts in
    let worn = confirmed_warning counts items in
    let bad = confirmed_unhealthy counts items in
    if not (is_empty bad)
    then settle HealthState.unhealthy (bad ++ filter (λ r. not (signalled r.code bad)) worn) counts
        0
    else if not (is_empty worn)
    then settle HealthState.warning worn counts 0
    else if not (is_empty candidates)
    then pending_round supported counts t
    else clean_round supported counts t

unfoldable pub offline_round : Tracker
unfolding settle
offline_round =
    settle HealthState.offline (reason Code.api_offline Severity.unhealthy ∷ []) (λ c. none) 0

unfoldable pub evaluate_tracker : Status → Limits → Tracker → Tracker
evaluate_tracker s l t =
    if s.online && s.api_ok then classify (signals s l).0 (signals s l).1 t else offline_round

unfoldable pub new_tracker : Tracker
unfolding settle
new_tracker = settle HealthState.unknown [] (λ c. none) 0

unfoldable pub state_tag : HealthState → ℕ
state_tag HealthState.unknown = 0
state_tag HealthState.healthy = 1
state_tag HealthState.warning = 2
state_tag HealthState.unhealthy = 3
state_tag HealthState.offline = 4

-- `evaluate` of the miner `key` at a time: the tracker that it leaves is also the health that it
-- reports.
unfoldable pub evaluate : ℕ → ℕ → Status → Limits → Engine → Engine
unfolding state_tag
evaluate time key s l e =
    let old = get_or new_tracker (e.trackers key) in
    let t = evaluate_tracker s l old in
    let change : Transition = record {
      time = time;
      miner_id = key;
      before = old.state;
      after = t.state;
      reasons = t.reasons;
    } in
    record {
      trackers = put key t e.trackers;
      transitions =
          if state_tag t.state == state_tag old.state
          then e.transitions
          else take 50 (change ∷ e.transitions);
    }

-- `reconfigure` keeps the trackers of the miners that `valid` names.
unfoldable pub reconfigure_trackers : (ℕ → Bool) → Engine → Engine
reconfigure_trackers valid e = record {
  trackers = (λ key. if valid key then e.trackers key else none);
  transitions = e.transitions;
}
