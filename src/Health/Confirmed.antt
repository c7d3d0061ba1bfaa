-- ===== src/Health/Confirmed.antt =====
-- pocisys-hash-monitor/services/health.py: what a change of the health state needs.
use gauge_umbrel_community.Prelude.{
  any_ext, is_empty-filter, ℕ, ◌+◌, ◌≤◌, ◌≡◌, ap, ◌∙◌, Bool, true, false, not, ◌&&◌, List, [], ◌∷◌,
  Option, arith, is_empty, any, get_or, leb, ◌⊎◌,
}
use gauge_umbrel_community.Health.State.{HealthState, Code, Reason, Tracker}
use gauge_umbrel_community.Health.Signals.{signals}
use gauge_umbrel_community.Health.Evaluate.{
  candidate_map, count_rules, settle, clean_round, pending_round, classify, evaluate_tracker,
  offline_round, confirmed_warning, confirmed_unhealthy, is_alarmed, is_unhealthy, calm_state,
}
use gauge_umbrel_community.Health.Streaks.{
  Round, run, answers, candidates, streak, clean_streak, run-eq-streak, classify-rule_counts,
}

-- The counts after a round whose latest candidates are `cs`.
abbrev counts_after : List Reason → Tracker → Code → Option ℕ
counts_after cs t = count_rules (candidate_map cs) t.rule_counts

-- Whether a candidate is unhealthy, and its code has been shown, in whatever severity, in three
-- rounds in a row.
abbrev pub has_three : List Round → List Reason → Bool
has_three rs cs = any (λ x. leb 3 (streak x.code rs) && is_unhealthy x.severity) cs

-- Whether the code of a candidate has been shown in two rounds in a row.
abbrev pub has_two : List Round → List Reason → Bool
has_two rs cs = any (λ x. leb 2 (streak x.code rs)) cs

classify_three :
    (cs : List Reason) (n : ℕ) (t : Tracker)
    → is_empty (confirmed_unhealthy (counts_after cs t) (candidate_map cs)) ≡ false
    → (classify cs n t).state ≡ HealthState.unhealthy
unfolding classify settle
classify_three cs n t h = ground arith

classify_calm :
    (cs : List Reason) (n : ℕ) (t : Tracker)
    → is_empty (confirmed_unhealthy (counts_after cs t) (candidate_map cs)) ≡ true
    → (classify cs n t).state ≡ HealthState.unhealthy
    → t.state ≡ HealthState.unhealthy
unfolding classify clean_round pending_round settle is_alarmed calm_state
classify_calm cs n t h e = ground arith

classify_two :
    (cs : List Reason) (n : ℕ) (t : Tracker)
    → is_alarmed t.state ≡ false
    → is_alarmed (classify cs n t).state ≡ true
    → is_empty (confirmed_warning (counts_after cs t) (candidate_map cs)) ≡ true
    → is_empty (confirmed_unhealthy (counts_after cs t) (candidate_map cs)) ≡ false
unfolding classify clean_round pending_round settle is_alarmed calm_state
classify_two cs n t a b h = ground arith

-- Leaving an alarm.
classify_recovers :
    (cs : List Reason) (n : ℕ) (t : Tracker)
    → is_alarmed t.state ≡ true
    → is_alarmed (classify cs n t).state ≡ false
    → (is_empty cs ≡ true) × (2 ≤ t.good_count + 1)
unfolding classify clean_round pending_round settle is_alarmed calm_state
classify_recovers cs n t a b = ground arith

count-eq-streak :
    (r : Round) (rs : List Round) (c : Code)
    → answers r ≡ true
    → get_or 0 (counts_after (candidates r) (run rs) c) ≡ streak c (r ∷ rs)
unfolding answers run evaluate_tracker
count-eq-streak r rs c h = ground (
  arith,
  run-eq-streak (r ∷ rs) c,
  classify-rule_counts (candidates r) (signals r.status r.limits).1 (run rs) c,
)

-- The dictionary of the candidates of a round.
abbrev pub items : Round → List Reason
items r = candidate_map (candidates r)

unhealthy-eq-has_three :
    (r : Round) (rs : List Round)
    → answers r ≡ true
    → is_empty (confirmed_unhealthy (counts_after (candidates r) (run rs)) (items r))
      ≡ not (has_three (r ∷ rs) (items r))
unfolding confirmed_unhealthy
unhealthy-eq-has_three r rs h =
    is_empty-filter _ (items r)
    ∙ ap not (
        any_ext _ _ (items r)
          (λ x. ap (λ n. leb 3 n && is_unhealthy x.severity) (count-eq-streak r rs x.code h)))

warning-eq-has_two :
    (r : Round) (rs : List Round)
    → answers r ≡ true
    → is_empty (confirmed_warning (counts_after (candidates r) (run rs)) (items r))
      ≡ not (has_two (r ∷ rs) (items r))
unfolding confirmed_warning
warning-eq-has_two r rs h =
    is_empty-filter _ (items r)
    ∙ ap not (any_ext _ _ (items r) (λ x. ap (λ n. leb 2 n) (count-eq-streak r rs x.code h)))

has_three-has_two :
    (rs : List Round) (cs : List Reason) → has_three rs cs ≡ true → has_two rs cs ≡ true
has_three-has_two rs (x ∷ cs) h = ground (arith, has_three-has_two rs cs)
has_three-has_two rs [] h = ground arith

-- A round in which the miner answers ends Unhealthy where it shows a candidate that is unhealthy in
-- this round and whose code has been shown, in whatever severity, for the third round in a row at
-- least.
pub unhealthy_after_three :
    (r : Round) (rs : List Round)
    → answers r ≡ true
    → has_three (r ∷ rs) (items r) ≡ true
    → (run (r ∷ rs)).state ≡ HealthState.unhealthy
unfolding answers run evaluate_tracker
unhealthy_after_three r rs h three = ground (
  arith,
  unhealthy-eq-has_three r rs h,
  classify_three (candidates r) (signals r.status r.limits).1 (run rs),
)

-- A round ends Unhealthy only where the round before did, or where it shows a candidate that is
-- unhealthy in this round and whose code has been shown, in whatever severity, for the third round
-- in a row at least.
pub unhealthy_needs_three :
    (r : Round) (rs : List Round)
    → (run (r ∷ rs)).state ≡ HealthState.unhealthy
    → ((run rs).state ≡ HealthState.unhealthy) ⊎ (has_three (r ∷ rs) (items r) ≡ true)
unfolding answers run evaluate_tracker offline_round settle
unhealthy_needs_three r rs e = ground (
  arith,
  unhealthy-eq-has_three r rs,
  classify_calm (candidates r) (signals r.status r.limits).1 (run rs),
)

-- From a state that is neither Warning nor Unhealthy, a round ends in one of them only where it
-- shows a candidate for the second round in a row at least.
pub alarm_needs_two :
    (r : Round) (rs : List Round)
    → is_alarmed (run rs).state ≡ false
    → is_alarmed (run (r ∷ rs)).state ≡ true
    → has_two (r ∷ rs) (items r) ≡ true
unfolding answers run evaluate_tracker offline_round settle is_alarmed
alarm_needs_two r rs calm alarmed = ground (
  arith,
  unhealthy-eq-has_three r rs,
  warning-eq-has_two r rs,
  has_three-has_two (r ∷ rs) (items r),
  classify_two (candidates r) (signals r.status r.limits).1 (run rs),
)

-- A round that ends Warning or Unhealthy is followed by a round in one of these states, by one that
-- ends Offline, or by one that is the second in a row at least in which the miner answers and shows
-- no candidate.
pub recovery_needs_two :
    (r : Round) (rs : List Round)
    → is_alarmed (run rs).state ≡ true
    → is_alarmed (run (r ∷ rs)).state ≡ false
    → ((run (r ∷ rs)).state ≡ HealthState.offline) ⊎ (2 ≤ clean_streak (r ∷ rs))
unfolding answers run evaluate_tracker offline_round settle is_alarmed clean_streak
recovery_needs_two r rs alarmed calm = ground (
  arith,
  run-eq-streak rs Code.api_offline,
  classify_recovers (candidates r) (signals r.status r.limits).1 (run rs),
)
