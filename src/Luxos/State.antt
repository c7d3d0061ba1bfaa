-- ===== src/Luxos/State.antt =====
-- pocisys-hash-monitor/services/luxos_control.py: the configuration that the control service reads
-- and the state that it keeps. Times are in milliseconds; miner ids and board ids are numbers.
use gauge_umbrel_community.Prelude.{ℕ, Bool, List, Option, Text, ℤ}

-- `control_low_mode`; `other` is any text that is neither `profile` nor `boards_off`.
pub data LowMode : Type 0 where
  profile boards_off other : LowMode

-- A target of the daily schedule.
pub data Target : Type 0 where
  low full : Target

-- The configuration of a miner, with the defaults filled in. `is_luxos` tells whether its `type` in
-- lower case is `luxos`; a time is none where it is no pair of integers.
pub record Miner : Type 0 where
  pub id : ℕ
  pub enabled : Bool
  pub is_luxos : Bool
  pub control_enabled : Bool
  pub schedule_enabled : Bool
  pub auto_recover : Bool
  pub low_mode : LowMode
  pub low_time : Option (ℕ × ℕ)
  pub full_time : Option (ℕ × ℕ)
  pub low_profile : Text
  pub full_profile : Text

pub record Config : Type 0 where
  pub miners : List Miner
  pub control_enabled : Bool
  pub chip_health_alerts : Bool
  pub control_alerts : Bool

-- A row of the profile catalog, as `_profile_value` reads it; numbers are scaled to integers.
pub record Profile : Type 0 where
  pub name : Text
  pub watts : Option ℤ
  pub hashrate : Option ℤ
  pub frequency : Option ℤ
  pub step : Option ℤ

-- The result of `LuxOSClient.profiles`; `current` is empty where it is unknown.
pub record Catalog : Type 0 where
  pub profiles : List Profile
  pub current : Text

-- The `status` of a hashboard.
pub data BoardStatus : Type 0 where
  healthy warning unhealthy unknown : BoardStatus

pub record Board : Type 0 where
  pub id : ℕ
  pub status : BoardStatus
  pub low_chips : ℕ

-- An entry of `health_cache`; the profile is empty where it is unknown.
pub record Snapshot : Type 0 where
  pub boards : List Board
  pub current_profile : Text
  pub failed : Bool

pub data Action : Type 0 where
  restart_board board_off board_on low full unsupported : Action

pub data Source : Type 0 where
  manual recovery schedule ceiling : Source

-- The reasons of a `LuxOSControlError`; `client` is any failure of a request to the miner.
pub data ControlError : Type 0 where
  not_found control_disabled recovery_unarmed schedule_unarmed manual_unarmed too_soon busy :
      ControlError
  invalid_board unreported_board unsupported_action no_normal_profile no_boards : ControlError
  invalid_profile unavailable_profile outside_normal outside_curtailed : ControlError
  unavailable_normal unproved_level above_normal client : ControlError

-- What an action reports on success.
pub data Message : Type 0 where
  board_restarted board_stopped board_started : ℕ → Message
  slept : ℕ → Message
  already_active applied : Text → Message
  boards_started : ℕ → Message → Message

-- A command that is sent to a miner inside a session.
pub data Command : Type 0 where
  reboot : ℕ → ℕ → Command
  profileset : Text → Command

-- An entry of `recent_actions`.
pub record Event : Type 0 where
  pub miner_id : ℕ
  pub action : Action
  pub success : Bool
  pub source : Source

-- A call of `AlertEngine.emit`.
pub data Alert : Type 0 where
  control : ℕ → Action → Bool → Alert
  recovery_detected : ℕ → ℕ → ℕ → Alert
  recovery_complete : ℕ → ℕ → Bool → Alert
  recovery_failed : ℕ → ℕ → Alert

pub record Cached : Type 0 where
  pub at : ℕ
  pub value : Catalog

-- The fields of `LuxOSControlService`. `sent` and `alerts` record, newest first, the commands that
-- miners were sent and the alerts that were emitted.
pub record Service : Type 0 where
  pub health_cache : ℕ → Option Snapshot
  pub profile_cache : ℕ → Option Cached
  pub health_due : ℕ → Option ℕ
  pub bad_confirmations : ℕ → ℕ → Option ℕ
  pub last_auto_attempt : ℕ → ℕ → Option ℕ
  pub auto_suppress_until : ℕ → ℕ → Option ℕ
  pub recovery_incidents : ℕ → ℕ → Option ℕ
  pub profile_suppress_until : ℕ → Option ℕ
  pub last_action_attempt : ℕ → Option ℕ
  pub last_schedule_target : ℕ → Option Target
  pub schedule_retry_after : ℕ → Option ℕ
  pub ceiling_retry_after : ℕ → Option ℕ
  pub recent_actions : List Event
  pub locked : ℕ → Bool
  pub started_at : ℕ
  pub sent : List (ℕ × Command)
  pub alerts : List Alert
