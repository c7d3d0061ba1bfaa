-- ===== src/Fan/State.antt =====
-- pocisys-gpu-runtime/fan_controller.py: the state of `FanController` and what it reads. Times are
-- in milliseconds, temperatures in thousandths of a degree, utilization in thousandths of a percent.
use gauge_umbrel_community.Prelude.{ℕ, Bool, List, Option, Text}

-- One `NvidiaSmiReader.sample`, after its bounds check.
pub record GpuSample : Type 0 where
  pub uuid : Text
  pub temperature : ℕ
  pub utilization : ℕ

-- `rpm` is 0 also where the hub reports no speed.
pub record FanTarget : Type 0 where
  pub serial : Text
  pub channel_id : ℕ
  pub rpm : ℕ

-- The keys of `self.settings`; `gpu_uuid` and `fan_serial` are empty where the key is missing.
pub record Settings : Type 0 where
  pub automatic_enabled : Bool
  pub gpu_uuid : Text
  pub fan_serial : Text
  pub fan_channel : Option ℕ

-- The `reason` of a finished calibration.
pub data Reason : Type 0 where
  utilization_reached temperature_reached temperature_rose rpm_zero completed no_rpm : Reason

pub record CalibrationEntry : Type 0 where
  pub success : Bool
  pub reason : Reason
  pub completed_at : ℕ
  pub min_rpm : Option ℕ
  pub max_rpm : Option ℕ
  pub start_temperature : Option ℕ
  pub max_temperature : Option ℕ

-- `self.calibration`, a dict whose keys are the duties' decimal texts.
abbrev pub Calibration : Type 0
Calibration = ℕ → Option CalibrationEntry

-- `self.manual`.
pub record Manual : Type 0 where
  pub duty : ℕ
  pub calibration : Bool
  pub started_at : ℕ
  pub expires_at : ℕ
  pub commanded_at : Option ℕ
  pub start_temperature : Option ℕ
  pub min_rpm : Option ℕ
  pub max_rpm : Option ℕ
  pub max_temperature : Option ℕ

-- A sample of the deque `gpu_temperatures`: when, and the temperature.
pub record Reading : Type 0 where
  pub at : ℕ
  pub temperature : ℕ

-- `saved_settings` and `saved_calibration` are the contents of the two files.
pub record Controller : Type 0 where
  pub settings : Settings
  pub saved_settings : Settings
  pub calibration : Calibration
  pub saved_calibration : Calibration
  pub last_command_id : Text
  pub last_hub_online : Bool
  pub last_sent_duty : Option ℕ
  pub last_sent_at : ℕ
  pub busy_until : ℕ
  pub reconnect_until : ℕ
  pub manual : Option Manual
  pub gpu_temperatures : List Reading

-- The `action` of a command; `other` is any value that no branch tests for.
pub data Action : Type 0 where
  manual automatic force_100 other : Action

-- A key of the command file: not there, of a type that `int` or `float` refuses, or its number.
-- A negative number, which no range test admits, is `present 0`.
pub data Field : Type 0 where
  missing malformed : Field
  present : ℕ → Field

-- `read_json(self.command_file)`; `id` is empty where the file or the key is missing.
pub record Command : Type 0 where
  pub id : Text
  pub action : Action
  pub duty : Field
  pub duration : Field
  pub enabled : Bool

-- The `mode` of a status.
pub data Mode : Type 0 where
  controller_unavailable invalid_gpu_telemetry gpu_busy temperature_failsafe gpu_cooldown : Mode
  controller_reconnect calibration_aborted forced_full_speed_complete calibration_complete : Mode
  rpm_failsafe manual_calibration automatic_temperature_curve automatic_disabled : Mode
  command_failed : Mode
