-- ===== src/Health/State.antt =====
-- pocisys-hash-monitor/services/health.py: what `HealthEngine` reads and keeps. Hashrates,
-- temperatures and percentages are in thousandths. A reason keeps its code and severity; its value,
-- threshold, source and detail, which are only displayed, and the diagnostics are left out.
use gauge_umbrel_community.Prelude.{ℕ, Bool, List, Option, Text}

pub data Severity : Type 0 where
  warning unhealthy : Severity

pub data HealthState : Type 0 where
  unknown healthy warning unhealthy offline : HealthState

-- The code of a reason. The codes of chips hold the name of the group.
pub data Code : Type 0 where
  hashrate_below_expected high_hardware_error_rate asic_temperature_critical : Code
  asic_temperature_warning api_offline recovery_pending : Code
  chip_not_responding chip_score_low chip_warning : Text → Code

pub record Reason : Type 0 where
  pub code : Code
  pub severity : Severity

-- The `status` of a chip group, stripped and in lower case: `other` is any word that the code does
-- not name, and the two spellings of `not responding` are one.
pub data ChipState : Type 0 where
  healthy alive warning degraded unhealthy dead missing failed : ChipState
  not_responding disabled off stopped other : ChipState

-- `name` is empty where the item has none.
pub record ChipItem : Type 0 where
  pub name : Text
  pub status : ChipState
  pub chips_healthy : Option ℕ
  pub chips_total : Option ℕ
  pub low_score_count : Option ℕ

-- The keys of `status` that the engine reads. A number is `none` where `_number` answers `None`.
-- `schedule_low` is `desired == "low"`. A chip item that is no dict is `none`.
pub record Status : Type 0 where
  pub online : Bool
  pub api_ok : Bool
  pub hashrate : Option ℕ
  pub expected_hashrate : Option ℕ
  pub hardware_error_percent : Option ℕ
  pub hardware_errors : Option ℕ
  pub valid_shares : Option ℕ
  pub temps : List (Option ℕ)
  pub chip_items : List (Option ChipItem)
  pub schedule_enabled : Bool
  pub schedule_low : Bool

-- The keys of the miner's configuration that the engine reads.
pub record Limits : Type 0 where
  pub min_hashrate : Option ℕ
  pub temp_warning : Option ℕ
  pub temp_critical : Option ℕ

pub record Tracker : Type 0 where
  pub state : HealthState
  pub rule_counts : Code → Option ℕ
  pub good_count : ℕ
  pub reasons : List Reason

pub record Transition : Type 0 where
  pub time : ℕ
  pub miner_id : ℕ
  pub before : HealthState
  pub after : HealthState
  pub reasons : List Reason

-- The engine's `trackers`, by the miner's id, and `transitions`, the newest first.
pub record Engine : Type 0 where
  pub trackers : ℕ → Option Tracker
  pub transitions : List Transition
