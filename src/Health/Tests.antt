-- ===== src/Health/Tests.antt =====
-- pocisys-hash-monitor/services/health.py: concrete miners, and the theorems applied to them.
use gauge_umbrel_community.Prelude.{
  ℕ, ◌≤◌, ◌≡◌, ◌⊎◌, refl, true, false, List, [], ◌∷◌, none, some, get_or, text_eq,
}
use gauge_umbrel_community.Health.State.{HealthState, Code, ChipState, ChipItem, Status, Limits}
use gauge_umbrel_community.Health.Signals.{signals}
use gauge_umbrel_community.Health.Evaluate.{
  is_alarmed, new_tracker, evaluate_tracker, classify, put_candidates, put_candidate, signalled,
  code_tag, code_name, calm_state, candidate_map, is_unhealthy,
}
use gauge_umbrel_community.Health.Streaks.{Round, run, answers, streak, clean_streak, run-eq-streak}
use gauge_umbrel_community.Health.Confirmed.{
  has_three, items, unhealthy_after_three, unhealthy_needs_three, recovery_needs_two,
}
use gauge_umbrel_community.Health.Miners.{
  Visit, visit, rounds_of, IsHistory, visit-trackers, visit-IsHistory,
}

abbrev limits : Limits
limits = record {
  min_hashrate = some 100000;
  temp_warning = some 70000;
  temp_critical = some 90000;
}

abbrev chip : ChipState → ChipItem
chip state = record {
  name = [];
  status = state;
  chips_healthy = some 63;
  chips_total = some 63;
  low_score_count = none;
}

abbrev status_at : ℕ → ChipState → Status
status_at temperature state = record {
  online = true;
  api_ok = true;
  hashrate = some 110000;
  expected_hashrate = none;
  hardware_error_percent = none;
  hardware_errors = some 10;
  valid_shares = some 9990;
  temps = some temperature ∷ none ∷ [];
  chip_items = some (chip state) ∷ none ∷ [];
  schedule_enabled = false;
  schedule_low = false;
}

abbrev good : Round
good = record { status = status_at 60000 ChipState.healthy; limits = limits }

-- The ASIC is too hot.
abbrev hot : Round
hot = record { status = status_at 95000 ChipState.healthy; limits = limits }

-- A chip group does not respond.
abbrev dead : Round
dead = record { status = status_at 60000 ChipState.dead; limits = limits }

good-signals : signals (status_at 60000 ChipState.healthy) limits ≡ ([], 4)
unfolding signals
good-signals = refl

two_hot : (run (hot ∷ hot ∷ good ∷ [])).state ≡ HealthState.warning
unfolding run evaluate_tracker signals text_eq classify put_candidates put_candidate signalled
    code_tag code_name is_alarmed new_tracker calm_state is_unhealthy
two_hot = refl

-- A warning by two rounds of heat gives way to a dead chip group only after its third round.
mixed : (run (dead ∷ dead ∷ hot ∷ hot ∷ [])).state ≡ HealthState.warning
unfolding run evaluate_tracker signals text_eq classify put_candidates put_candidate signalled
    code_tag code_name is_alarmed new_tracker calm_state is_unhealthy
mixed = refl

three_hot : has_three (hot ∷ hot ∷ hot ∷ []) (items hot) ≡ true
unfolding streak signals text_eq candidate_map put_candidates put_candidate answers signalled
    code_tag code_name is_unhealthy
three_hot = refl

answers-hot : answers hot ≡ true
unfolding answers
answers-hot = refl

unhealthy_after_three_example : (run (hot ∷ hot ∷ hot ∷ [])).state ≡ HealthState.unhealthy
unhealthy_after_three_example = unhealthy_after_three hot (hot ∷ hot ∷ []) answers-hot three_hot

ends_unhealthy : (run (hot ∷ hot ∷ hot ∷ [])).state ≡ HealthState.unhealthy
unfolding run evaluate_tracker signals text_eq classify put_candidates put_candidate signalled
    code_tag code_name is_alarmed new_tracker calm_state is_unhealthy
ends_unhealthy = refl

unhealthy_needs_three_example :
    ((run (hot ∷ hot ∷ [])).state ≡ HealthState.unhealthy)
    ⊎ (has_three (hot ∷ hot ∷ hot ∷ []) (items hot) ≡ true)
unhealthy_needs_three_example = unhealthy_needs_three hot (hot ∷ hot ∷ []) ends_unhealthy

calm_before : is_alarmed (run (hot ∷ good ∷ [])).state ≡ false
unfolding run evaluate_tracker signals text_eq classify put_candidates put_candidate signalled
    code_tag code_name is_alarmed new_tracker calm_state is_unhealthy
calm_before = refl

alarmed_after : is_alarmed (run (hot ∷ hot ∷ good ∷ [])).state ≡ true
unfolding run evaluate_tracker signals text_eq classify put_candidates put_candidate signalled
    code_tag code_name is_alarmed new_tracker calm_state is_unhealthy
alarmed_after = refl

still_alarmed : is_alarmed (run (good ∷ hot ∷ hot ∷ [])).state ≡ true
unfolding run evaluate_tracker signals text_eq classify put_candidates put_candidate signalled
    code_tag code_name is_alarmed new_tracker calm_state is_unhealthy
still_alarmed = refl

recovered : is_alarmed (run (good ∷ good ∷ hot ∷ hot ∷ [])).state ≡ false
unfolding run evaluate_tracker signals text_eq classify put_candidates put_candidate signalled
    code_tag code_name is_alarmed new_tracker calm_state is_unhealthy
recovered = refl

recovery_needs_two_example :
    ((run (good ∷ good ∷ hot ∷ hot ∷ [])).state ≡ HealthState.offline)
    ⊎ (2 ≤ clean_streak (good ∷ good ∷ hot ∷ hot ∷ []))
recovery_needs_two_example = recovery_needs_two good (good ∷ hot ∷ hot ∷ []) still_alarmed recovered

run-eq-streak_example :
    (get_or 0 ((run (hot ∷ hot ∷ good ∷ [])).rule_counts Code.asic_temperature_critical)
      ≡ streak Code.asic_temperature_critical (hot ∷ hot ∷ good ∷ []))
    × ((run (hot ∷ hot ∷ good ∷ [])).good_count ≡ clean_streak (hot ∷ hot ∷ good ∷ []))
run-eq-streak_example = run-eq-streak (hot ∷ hot ∷ good ∷ []) Code.asic_temperature_critical

abbrev two_miners : List Visit
two_miners =
    record { time = 30; key = 1; round = hot }
    ∷ record { time = 20; key = 2; round = good }
    ∷ record { time = 10; key = 1; round = hot }
    ∷ []

visit-trackers_example :
    get_or new_tracker ((visit two_miners).trackers 1) ≡ run (rounds_of 1 two_miners)
visit-trackers_example = visit-trackers two_miners 1

visit-IsHistory_example : IsHistory (visit two_miners).transitions
visit-IsHistory_example = visit-IsHistory two_miners
