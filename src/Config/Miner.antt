-- ===== src/Config/Miner.antt =====
-- pocisys-hash-monitor/services/validation.py: `clean_miner`.
use gauge_umbrel_community.Prelude.{
  ℕ, Bool, not, ◌&&◌, ◌||◌, List, [], ◌∷◌, ◌++◌, ◌⊎◌, inl, inr, Option, none, some, Text, codes,
  is_empty, text_eq, strip, lower, ltb, min, if◌then◌else◌, any, length, take,
}
use gauge_umbrel_community.Config.Values.{
  ApiError, RawValue, is_bad, is_negative, value_or, or_text, host_text, is_host, is_time,
  is_profile, is_board_number,
}

-- The keys of a form or a backup, an empty text standing for a missing one; a flag is what `bool`
-- makes of its value, or of its default.
pub record RawMiner : Type 0 where
  pub name : Text
  pub miner_type : Text
  pub ip : Text
  pub group : Text
  pub mining_target : Text
  pub enabled : Bool
  pub display_order : RawValue
  pub min_hashrate : RawValue
  pub temp_warning : RawValue
  pub temp_critical : RawValue
  pub control_low_mode : Text
  pub control_low_time : Text
  pub control_full_time : Text
  pub control_low_profile : Text
  pub control_full_profile : Text
  pub control_enabled : Bool
  pub schedule_enabled : Bool
  pub auto_recover : Bool
  pub chip_threshold : RawValue

-- What `clean_miner` adds for a LuxOS miner.
pub record Control : Type 0 where
  pub enabled : Bool
  pub schedule_enabled : Bool
  pub low_mode : Text
  pub low_time : Text
  pub full_time : Text
  pub low_profile : Text
  pub full_profile : Text
  pub auto_recover : Bool
  pub chip_threshold : ℕ

-- What `clean_miner` answers; numbers but the order are thousandths.
pub record CleanMiner : Type 0 where
  pub name : Text
  pub ip : Text
  pub miner_type : Text
  pub group : Text
  pub mining_target : Text
  pub enabled : Bool
  pub display_order : ℕ
  pub min_hashrate : Option ℕ
  pub temp_warning : ℕ
  pub temp_critical : ℕ
  pub control : Option Control

-- `in` a set of texts.
unfoldable pub is_one_of : Text → List Text → Bool
is_one_of t names = any (λ n. text_eq t n) names

unfoldable pub miner_types : List Text
miner_types =
    codes "axeos"
    ∷ codes "bitaxe"
    ∷ codes "nerdaxe"
    ∷ codes "nerdqaxe"
    ∷ codes "luxos"
    ∷ codes "canaan_avalon"
    ∷ codes "avalon"
    ∷ codes "cgminer"
    ∷ []

unfoldable pub mining_targets : List Text
mining_targets = codes "btc" ∷ codes "bch" ∷ codes "pool" ∷ []

unfoldable pub low_modes : List Text
low_modes = codes "profile" ∷ codes "boards_off" ∷ []

abbrev pub warning_of : RawMiner → ℕ
warning_of r = value_or 70000 r.temp_warning

abbrev pub critical_of : RawMiner → ℕ
critical_of r = value_or 80000 r.temp_critical

abbrev pub target_of : RawMiner → Text
target_of r = lower (or_text r.mining_target (codes "btc"))

abbrev pub low_mode_of : RawMiner → Text
low_mode_of r = or_text r.control_low_mode (codes "profile")

abbrev pub low_time_of : RawMiner → Text
low_time_of r = strip (or_text r.control_low_time (codes "16:00"))

abbrev pub full_time_of : RawMiner → Text
full_time_of r = strip (or_text r.control_full_time (codes "21:00"))

-- The conditions of `clean_miner` that raise, in their order.
unfoldable pub miner_checks : RawMiner → List (Bool × ApiError)
miner_checks r =
    (is_empty (strip r.name) || ltb 80 (length (strip r.name)), ApiError.bad_name)
    ∷ (not (is_one_of (lower r.miner_type) miner_types), ApiError.bad_type)
    ∷ (is_bad r.temp_warning, ApiError.bad_number)
    ∷ (is_bad r.temp_critical, ApiError.bad_number)
    ∷ (is_negative r.temp_warning || ltb 150000 (warning_of r), ApiError.bad_warning)
    ∷ (is_negative r.temp_critical || ltb 150000 (critical_of r), ApiError.bad_critical)
    ∷ (ltb (critical_of r) (warning_of r), ApiError.critical_below_warning)
    ∷ (is_bad r.min_hashrate, ApiError.bad_number)
    ∷ (is_negative r.min_hashrate, ApiError.negative_minimum)
    ∷ (not (is_one_of (target_of r) mining_targets), ApiError.bad_target)
    ∷ (not (is_host (host_text r.ip)), ApiError.bad_host)
    ∷ (is_bad r.display_order, ApiError.bad_whole_number)
    ∷ []

unfoldable pub control_checks : RawMiner → List (Bool × ApiError)
control_checks r =
    (not (is_one_of (low_mode_of r) low_modes), ApiError.bad_low_mode)
    ∷ (not (is_time (low_time_of r)), ApiError.bad_time)
    ∷ (not (is_time (full_time_of r)), ApiError.bad_time)
    ∷ (text_eq (low_time_of r) (full_time_of r) && r.schedule_enabled, ApiError.equal_times)
    ∷ (not (is_profile (strip r.control_low_profile)), ApiError.bad_profile)
    ∷ (is_board_number (strip r.control_low_profile), ApiError.ambiguous_profile)
    ∷ (not (is_profile (strip r.control_full_profile)), ApiError.bad_profile)
    ∷ (is_board_number (strip r.control_full_profile), ApiError.ambiguous_profile)
    ∷ (
      (r.control_enabled || r.schedule_enabled) && is_empty (strip r.control_full_profile),
      ApiError.missing_profile,
    )
    ∷ (
      r.schedule_enabled
          && text_eq (low_mode_of r) (codes "profile")
          && is_empty (strip r.control_low_profile),
      ApiError.missing_low_profile,
    )
    ∷ (is_bad r.chip_threshold, ApiError.bad_number)
    ∷ []

-- The first error, if any.
unfoldable pub first_error : List (Bool × ApiError) → Option ApiError
first_error [] = none
first_error ((t, e) ∷ cs) = let rest = first_error cs in if t then some e else rest

unfoldable pub is_luxos : RawMiner → Bool
is_luxos r = text_eq (lower r.miner_type) (codes "luxos")

unfoldable pub clean_control : RawMiner → Control
clean_control r = record {
  enabled = r.control_enabled;
  schedule_enabled = r.schedule_enabled;
  low_mode = low_mode_of r;
  low_time = low_time_of r;
  full_time = full_time_of r;
  low_profile = strip r.control_low_profile;
  full_profile = strip r.control_full_profile;
  auto_recover = r.auto_recover;
  chip_threshold = min 100000 (value_or 0 r.chip_threshold);
}

abbrev optional_value : RawValue → Option ℕ
optional_value (RawValue.value n) = some n
optional_value _ = none

unfoldable pub cleaned_miner : RawMiner → Option Control → CleanMiner
cleaned_miner r control = record {
  name = strip r.name;
  ip = host_text r.ip;
  miner_type = lower r.miner_type;
  group = or_text (take 80 (strip (or_text r.group (codes "Ungrouped")))) (codes "Ungrouped");
  mining_target = target_of r;
  enabled = r.enabled;
  display_order = min 9999 (value_or 0 r.display_order);
  min_hashrate = optional_value r.min_hashrate;
  temp_warning = warning_of r;
  temp_critical = critical_of r;
  control = control;
}

abbrev pub answer : Option ApiError → CleanMiner → ApiError ⊎ CleanMiner
answer none m = inr m
answer (some e) m = inl e

-- `clean_miner`
unfoldable pub clean_miner : RawMiner → ApiError ⊎ CleanMiner
unfolding first_error miner_checks control_checks is_luxos cleaned_miner clean_control
clean_miner r =
    if is_luxos r
    then answer (first_error (miner_checks r ++ control_checks r))
        (cleaned_miner r (some (clean_control r)))
    else answer (first_error (miner_checks r)) (cleaned_miner r none)
