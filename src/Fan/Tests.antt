-- ===== src/Fan/Tests.antt =====
-- pocisys-gpu-runtime/fan_controller.py: the theorems at concrete inputs, and runs of the model.
use gauge_umbrel_community.Prelude.{
  Bool, Option, Text, codes, is_empty, is_prefix, ℕ, ◌+◌, ◌*◌, ◌≤◌, ◌≡◌, ◌⊎◌, inr, refl, true,
  false, none, some, List, [], ◌∷◌, arith, text_eq, All,
}
use gauge_umbrel_community.Fan.Reader.{
  reading, GpuRow, read_sample, discover_gpu, read_row, bounded_sample, contains, upper, is_p100,
  p100s, real_rows, only_uuid,
}
use gauge_umbrel_community.Fan.Selected.{IsReading, IsOnly, read_sample-IsReading}
use gauge_umbrel_community.Fan.Curve.{temperature_duty, round_ratio}
use gauge_umbrel_community.Fan.Curve.Bounds.{exact_curve, temperature_duty_curve}
use gauge_umbrel_community.Fan.State.{
  GpuSample, FanTarget, Settings, Reason, CalibrationEntry, Manual, Controller, Action, missing,
  Command, Mode,
}
use gauge_umbrel_community.Fan.Manual.{passed, consume_command, update_manual_observations}
use gauge_umbrel_community.Fan.Select.{select_duty, select_lease, abort_below_full}
use gauge_umbrel_community.Fan.Tick.{
  TickInput, Status, TickResult, ticked, failed, SpeedCall, take_sample, connect, choose_duty,
  send_duty, drive, make_status, tick_hub, tick, run_statuses,
}
use gauge_umbrel_community.Fan.Invariant.{IsValid, after, tick-IsValid}
use gauge_umbrel_community.Fan.Safety.{hub_after}
use gauge_umbrel_community.Fan.Failsafe.{IsCool, tick_below_full}
use gauge_umbrel_community.Fan.Device.{IsSynced, tick-IsSynced}
use gauge_umbrel_community.Fan.Resync.{tick_resyncs}
use gauge_umbrel_community.Fan.Hold.Trace.{busy_minute}
use gauge_umbrel_community.Fan.Automatic.{is_calibrated, tick_enables_automatic}
use gauge_umbrel_community.Fan.Policy.{stall_alternates, failed_repeat_keeps_automatic}

abbrev success : CalibrationEntry
success = record {
  success = true;
  reason = Reason.completed;
  completed_at = 1;
  min_rpm = some 900;
  max_rpm = some 2100;
  start_temperature = some 30000;
  max_temperature = some 31000;
}

abbrev settings : Settings
settings = record {
  automatic_enabled = true;
  gpu_uuid = 1 ∷ [];
  fan_serial = 2 ∷ [];
  fan_channel = some 0;
}

-- Automatic control, calibrated, at 40 percent.
abbrev controller : Controller
controller = record {
  settings = settings;
  saved_settings = settings;
  calibration = λ d. some success;
  saved_calibration = λ d. some success;
  last_command_id = 7 ∷ [];
  last_hub_online = true;
  last_sent_duty = some 40;
  last_sent_at = 100000;
  busy_until = 0;
  reconnect_until = 0;
  manual = none;
  gpu_temperatures = [];
}

abbrev no_command : Command
no_command = record {
  id = [];
  action = Action.other;
  duty = missing;
  duration = missing;
  enabled = false;
}

abbrev sample : ℕ → ℕ → GpuSample
sample temperature utilization = record {
  uuid = 1 ∷ [];
  temperature = temperature;
  utilization = utilization;
}

abbrev fan : ℕ → FanTarget
fan rpm = record { serial = 2 ∷ []; channel_id = 0; rpm = rpm }

abbrev input : ℕ → GpuSample → ℕ → Command → TickInput
input now g rpm command = record {
  now = now;
  command_clock = now;
  observe_clock = now;
  status_clock = now;
  wall = now;
  sample = some g;
  command = command;
  discover = λ serial channel. some (fan rpm);
  connect_accepted = true;
  send_accepted = true;
  retry_accepted = true;
}

abbrev cool : TickInput
cool = input 102000 (sample 47000 0) 1200 no_command

abbrev busy : TickInput
busy = input 102000 (sample 47000 50000) 1200 no_command

abbrev status_of : TickResult → Status → Status
status_of (ticked s st calls) _ = st
status_of (failed s) st = st

abbrev no_status : Status
no_status = record {
  online = false;
  healthy = false;
  mode = Mode.command_failed;
  target_percent = 0;
  reported_rpm = 0;
  automatic_enabled = false;
  busy_hold_remaining = 0;
  gpu_stable = false;
  manual_remaining = 0;
  calibration_complete = false;
}

abbrev calls_of : TickResult → List SpeedCall
calls_of (ticked s st calls) = calls
calls_of (failed s) = []

abbrev status : TickInput → Controller → Status
status i s = status_of (tick i s) no_status

abbrev Computes : TickInput → Controller → Type 0
Computes i s = tick i s ≡ ticked (after (tick i s)) (status i s) (calls_of (tick i s))

cool-Computes : Computes cool controller
unfolding tick take_sample consume_command tick_hub text_eq
cool-Computes = refl

busy-Computes : Computes busy controller
unfolding tick take_sample consume_command tick_hub text_eq
busy-Computes = refl

controller-IsValid : IsValid controller
controller-IsValid = record { lease = tt; saved = refl; bounded = omega arith }

-- 47 degrees give 44 percent.
cool_percent : (status cool controller).target_percent ≡ 44
unfolding tick take_sample consume_command tick_hub connect drive update_manual_observations
    choose_duty select_duty select_lease send_duty make_status temperature_duty round_ratio
cool_percent = refl

temperature_duty_curve_example :
    (40 ≤ temperature_duty 52500)
    × (temperature_duty 52500 ≤ 100)
    × (5000 * temperature_duty 52500 ≤ exact_curve 52500 + 2500)
    × (exact_curve 52500 ≤ 5000 * temperature_duty 52500 + 2500)
    × (temperature_duty 47000 ≤ temperature_duty 52500)
temperature_duty_curve_example = temperature_duty_curve 47000 52500 (omega arith)

tick_below_full_example :
    IsCool 102000
      (some (sample 47000 0))
      (after (tick cool controller))
      (status cool controller).target_percent
tick_below_full_example =
    tick_below_full cool controller cool-Computes (omega (arith, cool_percent))

tick-IsValid_example : IsValid (after (tick cool controller))
tick-IsValid_example = tick-IsValid cool controller controller-IsValid

abbrev no_losses : List Bool
no_losses = false ∷ false ∷ []

tick-IsSynced_example :
    IsSynced
      (hub_after no_losses (some 40) (calls_of (tick cool controller)))
      (after (tick cool controller))
    × ((status cool controller).online ≡ true
        → hub_after no_losses (some 40) (calls_of (tick cool controller))
          ≡ some (status cool controller).target_percent)
tick-IsSynced_example =
    tick-IsSynced cool (some 40) no_losses controller controller-IsValid (inr refl)
      (refl, (refl, tt)) cool-Computes

-- A tick none of whose requests is answered, and one that selects the duty before it again.
abbrev unanswered : TickInput
unanswered = record cool { send_accepted = false; retry_accepted = false }

abbrev cooler : TickInput
cooler = input 103000 (sample 45000 0) 1200 no_command

-- Where the hub has applied both requests of the first tick, it holds 100 percent, and the second tick
-- sends nothing and reports 40 percent online.
lost_answer :
    (hub_after (true ∷ true ∷ []) (some 40) (calls_of (tick unanswered controller)) ≡ some 100)
    × (calls_of (tick cooler (after (tick unanswered controller))) ≡ [])
    × ((status cooler (after (tick unanswered controller))).online ≡ true)
    × ((status cooler (after (tick unanswered controller))).target_percent ≡ 40)
unfolding tick consume_command tick_hub connect take_sample drive send_duty choose_duty select_duty
    update_manual_observations select_lease round_ratio make_status
lost_answer = (refl, refl, refl, refl)

abbrev heartbeat : TickInput
heartbeat = input 131000 (sample 47000 0) 1200 no_command

heartbeat-Computes : Computes heartbeat controller
unfolding tick take_sample consume_command tick_hub text_eq
heartbeat-Computes = refl

heartbeat_online : (status heartbeat controller).online ≡ true
unfolding tick consume_command tick_hub make_status drive send_duty choose_duty select_duty
    update_manual_observations connect take_sample select_lease round_ratio
heartbeat_online = refl

-- The hub holds 70 percent, of which the controller has not been told.
tick_resyncs_example :
    hub_after (true ∷ true ∷ []) (some 70) (calls_of (tick heartbeat controller))
    ≡ some (status heartbeat controller).target_percent
tick_resyncs_example =
    tick_resyncs heartbeat (some 70) (true ∷ true ∷ []) controller controller-IsValid (omega arith)
      heartbeat-Computes heartbeat_online

busy_online : (status busy controller).online ≡ true
unfolding tick take_sample consume_command tick_hub connect drive update_manual_observations
    choose_duty select_duty abort_below_full send_duty make_status
busy_online = refl

abbrev next_rounds : List TickInput
next_rounds =
    input 104000 (sample 46000 0) 1200 no_command
    ∷ input 161000 (sample 45000 0) 1200 no_command
    ∷ []

busy_minute_example :
    All (λ x. x.target_percent ≡ 100) (run_statuses next_rounds (after (tick busy controller)))
busy_minute_example =
    busy_minute busy next_rounds controller (sample 47000 50000) controller-IsValid busy-Computes
      busy_online refl (omega arith) (omega arith)

abbrev manual_controller : Controller
manual_controller = record controller { settings = record settings { automatic_enabled = false } }

abbrev enable : TickInput
enable =
    input 102000 (sample 47000 0) 1200
      (record no_command { id = 8 ∷ []; action = Action.automatic; enabled = true })

enable-Computes : Computes enable manual_controller
unfolding tick take_sample consume_command tick_hub text_eq
enable-Computes = refl

enabled : (after (tick enable manual_controller)).settings.automatic_enabled ≡ true
unfolding tick take_sample consume_command tick_hub connect drive update_manual_observations
    choose_duty select_duty select_lease send_duty temperature_duty round_ratio text_eq
enabled = refl

tick_enables_automatic_example :
    (manual_controller.settings.automatic_enabled ≡ true)
    ⊎ ((enable.command.action ≡ Action.automatic)
        × (enable.command.enabled ≡ true)
        × (is_calibrated manual_controller ≡ true))
tick_enables_automatic_example =
    tick_enables_automatic enable manual_controller enable-Computes enabled

abbrev still : ℕ → TickInput
still now = input now (sample 47000 0) 0 no_command

stall_alternates_example :
    let first = drive (still 106000) (some (fan 0)) controller in
    (first.duty ≡ 100)
    × (first.mode ≡ Mode.rpm_failsafe)
    × ((drive (still 108000) (some (fan 0)) first.state).duty ≡ temperature_duty 47000)
stall_alternates_example =
    stall_alternates (still 106000) (still 108000) (fan 0) (fan 0) (sample 47000 0) (sample 47000 0)
      controller 40 refl refl refl refl refl (omega arith) (omega arith) (omega arith) refl
      (omega arith) refl (omega arith) (omega arith) refl (omega arith) refl

abbrev lease : Manual
lease = record {
  duty = 50;
  calibration = true;
  started_at = 70000;
  expires_at = 95000;
  commanded_at = some 70000;
  start_temperature = some 47000;
  min_rpm = none;
  max_rpm = none;
  max_temperature = some 47000;
}

abbrev leased : Controller
leased = record controller { manual = some lease }

failed_repeat_keeps_automatic_example :
    let s' = (select_duty 1 102000 (some (sample 47000 0)) leased).state in
    (passed s'.calibration 50 ≡ false) × (s'.settings.automatic_enabled ≡ true)
failed_repeat_keeps_automatic_example =
    failed_repeat_keeps_automatic 1 102000 (sample 47000 0) lease leased 47000 (omega arith) refl
      refl refl (omega arith) (omega arith) refl refl

abbrev smi_row : Option GpuRow
smi_row = some (record {
  name = codes "Tesla P100-PCIE";
  uuid = codes "GPU-1";
  temperature = reading 47000;
  utilization = reading 0;
})

abbrev smi_rows : Text → List (Option GpuRow)
smi_rows uuid = smi_row ∷ []

smi_sample :
    read_sample [] (none ∷ smi_row ∷ []) smi_rows
    ≡ (codes "GPU-1", some (record { uuid = codes "GPU-1"; temperature = 47000; utilization = 0 }))
unfolding read_sample discover_gpu read_row bounded_sample contains upper is_p100 p100s real_rows
    only_uuid is_prefix text_eq
smi_sample = refl

read_sample-IsReading_example :
    IsReading
      (codes "GPU-1")
      (record { uuid = codes "GPU-1"; temperature = 47000; utilization = 0 })
    × ((is_empty {A = ℕ} [] ≡ false) × (codes "GPU-1" ≡ [])
        ⊎ IsOnly (none ∷ smi_row ∷ []) (codes "GPU-1"))
read_sample-IsReading_example =
    read_sample-IsReading (none ∷ smi_row ∷ []) smi_rows [] (codes "GPU-1")
      (record { uuid = codes "GPU-1"; temperature = 47000; utilization = 0 }) smi_sample
