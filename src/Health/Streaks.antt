-- ===== src/Health/Streaks.antt =====
-- pocisys-hash-monitor/services/health.py: what the confirmation counters count.
use gauge_umbrel_community.Prelude.{
  ℕ, suc, ◌+◌, ◌≡◌, refl, Bool, true, ◌&&◌, ◌||◌, List, [], ◌∷◌, Option, arith, text_eq→eq,
  is_empty, get_or, if◌then◌else◌,
}
use gauge_umbrel_community.Health.State.{Code, Reason, Status, Limits, Tracker}
use gauge_umbrel_community.Health.Signals.{signals}
use gauge_umbrel_community.Health.Evaluate.{
  code_name, code_eq, signalled, put_candidate, put_candidates, candidate_map, count_rules, settle,
  clean_round, pending_round, classify, evaluate_tracker, new_tracker, offline_round,
  confirmed_warning, confirmed_unhealthy,
}

pub record Round : Type 0 where
  pub status : Status
  pub limits : Limits

-- The tracker of a new miner after rounds, the latest first.
unfoldable pub run : List Round → Tracker
run [] = new_tracker
run (r ∷ rs) = evaluate_tracker r.status r.limits (run rs)

unfoldable pub answers : Round → Bool
answers r = r.status.online && r.status.api_ok

abbrev pub candidates : Round → List Reason
candidates r = (signals r.status r.limits).0

-- The number of rounds up to the latest in which the miner answered and showed the code.
unfoldable pub streak : Code → List Round → ℕ
streak c [] = 0
streak c (r ∷ rs) =
    let before = streak c rs in if answers r && signalled c (candidates r) then suc before else 0

-- The number of rounds up to the latest in which the miner answered and showed no code.
unfoldable pub clean_streak : List Round → ℕ
clean_streak [] = 0
clean_streak (r ∷ rs) =
    let before = clean_streak rs in if answers r && is_empty (candidates r) then suc before else 0

-- Equal codes are equal to the same codes.
code_eq_trans : (c d x : Code) → code_eq d x ≡ true → code_eq c x ≡ code_eq c d
unfolding code_eq
code_eq_trans c d x h = ground (arith, text_eq→eq (code_name d) (code_name x))

signalled-put_candidate :
    (c : Code) (r : Reason) (xs : List Reason)
    → signalled c (put_candidate r xs) ≡ (code_eq c r.code || signalled c xs)
unfolding signalled put_candidate
signalled-put_candidate c r [] = refl
signalled-put_candidate c r (x ∷ xs) =
    ground (arith, code_eq_trans c r.code x.code, signalled-put_candidate c r xs)

signalled-put_candidates :
    (c : Code) (rs acc : List Reason)
    → signalled c (put_candidates rs acc) ≡ (signalled c rs || signalled c acc)
unfolding signalled put_candidates
signalled-put_candidates c [] acc = refl
signalled-put_candidates c (r ∷ rs) acc =
    ground
      (arith, signalled-put_candidates c rs (put_candidate r acc), signalled-put_candidate c r acc)

-- The dictionary of candidates has the codes of the candidates.
pub signalled-candidate_map :
    (c : Code) (rs : List Reason) → signalled c (candidate_map rs) ≡ signalled c rs
unfolding candidate_map signalled
signalled-candidate_map c rs = ground (arith, signalled-put_candidates c rs [])

pub classify-rule_counts :
    (cs : List Reason) (n : ℕ) (t : Tracker) (c : Code)
    → (classify cs n t).rule_counts c ≡ count_rules (candidate_map cs) t.rule_counts c
unfolding classify clean_round pending_round settle
classify-rule_counts cs n t c = ground arith

pub classify-good_count :
    (cs : List Reason) (n : ℕ) (t : Tracker)
    → (classify cs n t).good_count ≡ (if is_empty cs then t.good_count + 1 else 0)
unfolding classify clean_round pending_round settle candidate_map put_candidates confirmed_warning
    confirmed_unhealthy
classify-good_count [] n t = ground arith
classify-good_count (x ∷ cs) n t = ground arith

count_rules-candidate_map :
    (cs : List Reason) (old : Code → Option ℕ) (c : Code)
    → get_or 0 (count_rules (candidate_map cs) old c)
      ≡ (if signalled c cs then get_or 0 (old c) + 1 else 0)
unfolding count_rules
count_rules-candidate_map cs old c = rw (signalled-candidate_map c cs) ground arith

-- The counter of a code is its streak, and the counter of good rounds is the streak of rounds
-- without any code, after any rounds.
pub run-eq-streak :
    (rs : List Round) (c : Code)
    → (get_or 0 ((run rs).rule_counts c) ≡ streak c rs) × ((run rs).good_count ≡ clean_streak rs)
unfolding run streak clean_streak answers evaluate_tracker new_tracker offline_round settle
run-eq-streak [] c = (refl, refl)
run-eq-streak (r ∷ rs) c = ground (
  arith,
  run-eq-streak rs c,
  classify-rule_counts (candidates r) (signals r.status r.limits).1 (run rs) c,
  classify-good_count (candidates r) (signals r.status r.limits).1 (run rs),
  count_rules-candidate_map (candidates r) (run rs).rule_counts c,
)
