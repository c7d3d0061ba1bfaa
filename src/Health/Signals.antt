-- ===== src/Health/Signals.antt =====
-- pocisys-hash-monitor/services/health.py: `_curtailed` and `_signals`.
use gauge_umbrel_community.Prelude.{
  ℕ, ◌+◌, ◌*◌, Bool, true, false, not, ◌&&◌, ◌||◌, List, [], ◌∷◌, ◌++◌, Option, none, some, Text,
  is_empty, ltb, leb, max, if◌then◌else◌, is_some, take,
}
use gauge_umbrel_community.Health.State.{
  Severity, Code, Reason, ChipState, ChipItem, Status, Limits,
}

unfoldable pub curtailed : Status → Bool
curtailed s = s.schedule_enabled && s.schedule_low

-- The threshold of the hashrate, in quarters: the configured minimum, or three quarters of the
-- expectation where there is none.
unfoldable pub threshold_quarters : Status → Limits → Option ℕ
threshold_quarters s l = elim l.min_hashrate [
  | some configured ↦ some (4 * configured)
  | none ↦ elim s.expected_hashrate [
    | some expected ↦ if ltb 0 expected then some (3 * expected) else none
    | none ↦ none
  ]
]

-- `_reason`.
abbrev pub reason : Code → Severity → Reason
reason c v = record { code = c; severity = v }

unfoldable pub severity_if : Bool → Severity
severity_if severe = if severe then Severity.unhealthy else Severity.warning

-- Below the threshold; severe at a quarter of it or less.
unfoldable pub hashrate_below : Bool → ℕ → ℕ → List Reason
unfolding severity_if
hashrate_below low threshold hashrate =
    if ltb 0 threshold && ltb (4 * hashrate) threshold && not low
    then reason Code.hashrate_below_expected (severity_if (leb (16 * hashrate) threshold)) ∷ []
    else []

unfoldable pub hashrate_reasons : Status → Limits → List Reason
unfolding hashrate_below threshold_quarters curtailed
hashrate_reasons s l = elim s.hashrate [
  | some hashrate ↦ elim (threshold_quarters s l) [
    | some threshold ↦ hashrate_below (curtailed s) threshold hashrate
    | none ↦ []
  ]
  | none ↦ []
]

-- A rate of errors, in thousandths of a percent: `parts / whole`.
pub record Rate : Type 0 where
  pub parts : ℕ
  pub whole : ℕ

unfoldable pub error_rate : Status → Option Rate
error_rate s = elim s.hardware_error_percent [
  | some percent ↦ some (record { parts = percent; whole = 1 })
  | none ↦ elim s.hardware_errors [
    | some errors ↦ elim s.valid_shares [
      | some valid ↦
          if ltb 0 valid
          then some (record { parts = errors * 100000; whole = errors + valid })
          else none
      | none ↦ none
    ]
    | none ↦ none
  ]
]

-- From 2 percent; severe from 5 percent.
unfoldable pub error_reasons : Option Rate → List Reason
unfolding severity_if
error_reasons none = []
error_reasons (some r) =
    if leb (2000 * r.whole) r.parts
    then reason Code.high_hardware_error_rate (severity_if (leb (5000 * r.whole) r.parts)) ∷ []
    else []

-- The highest value of the sensors, among those between 0 and 200 degrees.
unfoldable pub highest_temperature : List (Option ℕ) → Option ℕ
highest_temperature [] = none
highest_temperature (none ∷ ts) = highest_temperature ts
highest_temperature (some t ∷ ts) =
    let rest = highest_temperature ts in
    if ltb 0 t && ltb t 200000 then some (elim rest [ some u ↦ max t u | none ↦ t ]) else rest

unfoldable pub reaches : ℕ → Option ℕ → Bool
reaches t none = false
reaches t (some limit) = leb limit t

unfoldable pub temperature_reasons : Limits → Option ℕ → List Reason
unfolding reaches
temperature_reasons l none = []
temperature_reasons l (some t) =
    if reaches t l.temp_critical
    then reason Code.asic_temperature_critical Severity.unhealthy ∷ []
    else if reaches t l.temp_warning
    then reason Code.asic_temperature_warning Severity.warning ∷ []
    else []

-- `f"ASIC group {index + 1}"`, for an index below 16.
unfoldable pub group_name : ℕ → Text
group_name index =
    65
    ∷ 83
    ∷ 73
    ∷ 67
    ∷ 32
    ∷ 103
    ∷ 114
    ∷ 111
    ∷ 117
    ∷ 112
    ∷ 32
    ∷ (if ltb index 9 then (49 + index) ∷ [] else 49 ∷ (39 + index) ∷ [])

unfoldable pub chip_name : ℕ → ChipItem → Text
unfolding group_name
chip_name index item = take 80 (if is_empty item.name then group_name index else item.name)

unfoldable pub explicit_bad : ChipState → Bool
explicit_bad ChipState.unhealthy = true
explicit_bad ChipState.dead = true
explicit_bad ChipState.missing = true
explicit_bad ChipState.failed = true
explicit_bad ChipState.not_responding = true
explicit_bad _ = false

unfoldable pub explicit_warning : ChipState → Bool
explicit_warning ChipState.warning = true
explicit_warning ChipState.degraded = true
explicit_warning _ = false

unfoldable pub explicit_good : ChipState → Bool
explicit_good ChipState.healthy = true
explicit_good ChipState.alive = true
explicit_good _ = false

unfoldable pub is_disabled : ChipState → Bool
is_disabled ChipState.disabled = true
is_disabled ChipState.off = true
is_disabled ChipState.stopped = true
is_disabled _ = false

unfoldable pub count_bad : ChipItem → Bool
count_bad item = elim item.chips_healthy [
  | some good ↦ elim item.chips_total [ some total ↦ ltb 0 total && ltb good total | none ↦ false ]
  | none ↦ false
]

unfoldable pub is_known : ChipItem → Bool
unfolding explicit_bad explicit_warning explicit_good count_bad
is_known item =
    explicit_good item.status
    || explicit_warning item.status
    || explicit_bad item.status
    || count_bad item

unfoldable pub has_low_score : ChipItem → Bool
has_low_score item = elim item.low_score_count [ some n ↦ ltb 0 n | none ↦ false ]

-- What one chip group adds to the candidates.
unfoldable pub chip_reasons : Bool → ℕ → ChipItem → List Reason
unfolding explicit_bad explicit_warning is_disabled count_bad has_low_score chip_name
chip_reasons low index item =
    if low && is_disabled item.status
    then []
    else if explicit_bad item.status || count_bad item && not (explicit_warning item.status)
    then reason (Code.chip_not_responding (chip_name index item)) Severity.unhealthy ∷ []
    else if explicit_warning item.status
    then (if has_low_score item
        then reason (Code.chip_score_low (chip_name index item)) Severity.warning ∷ []
        else reason (Code.chip_warning (chip_name index item)) Severity.warning ∷ [])
    else []

-- The loop over the chip groups, from `index`: the candidates and `known_chip_signals`.
unfoldable pub scan_chips : Bool → ℕ → List (Option ChipItem) → List Reason × ℕ
unfolding chip_reasons is_known
scan_chips low index [] = ([], 0)
scan_chips low index (none ∷ items) = scan_chips low (index + 1) items
scan_chips low index (some item ∷ items) =
    let rest = scan_chips low (index + 1) items in
    (chip_reasons low index item ++ rest.0, (if is_known item then 1 else 0) + rest.1)

-- The candidates, and the number of supported signals.
unfoldable pub signals : Status → Limits → List Reason × ℕ
unfolding hashrate_reasons error_rate error_reasons highest_temperature temperature_reasons
    curtailed scan_chips
signals s l =
    let rate = error_rate s in
    let hottest = highest_temperature s.temps in
    let chips = scan_chips (curtailed s) 0 (take 16 s.chip_items) in
    (
      hashrate_reasons s l ++ error_reasons rate ++ temperature_reasons l hottest ++ chips.0,
      (if is_some s.hashrate then 1 else 0)
          + (if is_some rate then 1 else 0)
          + (if is_some hottest then 1 else 0)
          + (if ltb 0 chips.1 then 1 else 0),
    )
