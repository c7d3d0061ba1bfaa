-- ===== src/Fan/Manual.antt =====
-- pocisys-gpu-runtime/fan_controller.py: `_gpu_is_stable`, `_consume_command`, `_finish_manual` and
-- `_update_manual_observations`. Each clock that a method reads is an argument of its definition.
use gauge_umbrel_community.Prelude.{
  ℕ, ◌+◌, Bool, true, false, not, ◌&&◌, ◌||◌, Option, none, some, List, [], ◌∷◌, ltb, leb, ◌==◌,
  if◌then◌else◌, min, max, length, any, all, is_empty, text_eq,
}
use gauge_umbrel_community.Fan.State.{
  GpuSample, FanTarget, Reason, CalibrationEntry, Calibration, Manual, Reading, Controller, Action,
  Field, missing, malformed, present, Command,
}

abbrev pub calibration_order : List ℕ
calibration_order = 100 ∷ 70 ∷ 50 ∷ 40 ∷ []

-- `duty in CALIBRATION_DUTIES`
abbrev pub is_calibration_duty : ℕ → Bool
is_calibration_duty d = any (λ x. d == x) calibration_order

-- `CALIBRATION_ORDER[: CALIBRATION_ORDER.index(duty)]`
abbrev pub before : ℕ → List ℕ → List ℕ
before d [] = []
before d (x ∷ xs) = if d == x then [] else x ∷ before d xs

-- `bool(self.calibration.get(str(duty), {}).get("success"))`
abbrev pub passed : Calibration → ℕ → Bool
passed c d = elim (c d) [ none ↦ false | some e ↦ e.success ]

-- The samples of the last fifteen seconds.
recent_readings : ℕ → List Reading → List Reading
recent_readings clock [] = []
recent_readings clock (r ∷ rs) =
    let rest = recent_readings clock rs in if leb clock (r.at + 15000) then r ∷ rest else rest

last_at : ℕ → List Reading → ℕ
last_at t [] = t
last_at t (r ∷ rs) = last_at r.at rs

highest : ℕ → List Reading → ℕ
highest t [] = t
highest t (r ∷ rs) = highest (max t r.temperature) rs

lowest : ℕ → List Reading → ℕ
lowest t [] = t
lowest t (r ∷ rs) = lowest (min t r.temperature) rs

-- The two tests on the recent samples, from oldest to newest.
is_steady : List Reading → Bool
unfolding last_at highest lowest
is_steady [] = false
is_steady (r ∷ rs) =
    if ltb (length (r ∷ rs)) 4 || ltb (last_at r.at rs) (r.at + 6000)
    then false
    else leb (highest r.temperature rs) (lowest r.temperature rs + 2000)

unfoldable pub gpu_is_stable : ℕ → Controller → Bool
unfolding recent_readings is_steady
gpu_is_stable clock s = is_steady (recent_readings clock s.gpu_temperatures)

-- `int(command.get(key, default))` and the like for `float`; `none` is a raised error.
abbrev pub read_field : ℕ → Field → Option ℕ
read_field default missing = some default
read_field default malformed = none
read_field default (present n) = some n

abbrev pub sampled_temperature : Option GpuSample → Option ℕ
sampled_temperature none = none
sampled_temperature (some g) = some g.temperature

-- The dict that a command puts into `self.manual`.
abbrev pub new_manual : ℕ → Bool → ℕ → ℕ → Option ℕ → Manual
new_manual duty calibration clock duration temperature = record {
  duty = duty;
  calibration = calibration;
  started_at = clock;
  expires_at = clock + duration;
  commanded_at = none;
  start_temperature = temperature;
  min_rpm = none;
  max_rpm = none;
  max_temperature = temperature;
}

-- The branch `action == "manual"` once both numbers are read.
unfoldable pub start_calibration : ℕ → Option GpuSample → ℕ → ℕ → Controller → Controller
start_calibration clock sample duty duration s =
    if not (is_calibration_duty duty) || not (leb 20000 duration && leb duration 30000)
    then s
    else if any (λ prior. not (passed s.calibration prior)) (before duty calibration_order)
    then s
    else if ltb duty 100 && not (gpu_is_stable clock s)
    then s
    else record s {
      manual = some (new_manual duty true clock duration (sampled_temperature sample));
      last_sent_duty = none;
    }

-- The branch `action == "automatic"`, with `_save_settings`.
unfoldable pub set_automatic : Bool → Controller → Controller
set_automatic enabled s =
    let settings = record s.settings {
      automatic_enabled = enabled && all (passed s.calibration) calibration_order;
    } in
    record s { settings = settings; saved_settings = settings }

-- The branch `action == "force_100"`.
unfoldable pub force_full : ℕ → Option GpuSample → Controller → Controller
force_full clock sample s = record s {
  manual = some (new_manual 100 false clock 30000 (sampled_temperature sample));
  last_sent_duty = none;
}

-- The branches on `action`. The Boolean tells whether the method raised; the state is kept then.
unfoldable pub run_action :
    Action → ℕ → Option GpuSample → Option ℕ → Option ℕ → Bool → Controller → Controller × Bool
unfolding start_calibration set_automatic force_full
run_action Action.manual clock sample (some duty) (some duration) enabled s =
    (start_calibration clock sample duty duration s, false)
run_action Action.manual clock sample (some duty) none enabled s = (s, true)
run_action Action.manual clock sample none duration enabled s = (s, true)
run_action Action.automatic clock sample duty duration enabled s = (set_automatic enabled s, false)
run_action Action.force_100 clock sample duty duration enabled s =
    (force_full clock sample s, false)
run_action Action.other clock sample duty duration enabled s = (s, false)

-- `_consume_command`, on the command that it reads.
unfoldable pub consume_command : ℕ → Option GpuSample → Command → Controller → Controller × Bool
unfolding run_action
consume_command clock sample c s =
    if is_empty c.id || text_eq c.id s.last_command_id
    then (s, false)
    else run_action c.action clock sample (read_field 100 c.duty) (read_field 25000 c.duration)
        c.enabled (record s { last_command_id = c.id })

abbrev pub calibration_entry : ℕ → Bool → Reason → Manual → CalibrationEntry
calibration_entry wall success reason m = record {
  success = success;
  reason = reason;
  completed_at = wall;
  min_rpm = m.min_rpm;
  max_rpm = m.max_rpm;
  start_temperature = m.start_temperature;
  max_temperature = m.max_temperature;
}

abbrev pub with_entry : Calibration → ℕ → CalibrationEntry → Calibration
with_entry c duty e d = if d == duty then some e else c d

-- `_finish_manual` once `self.manual` is read.
unfoldable pub close_manual : Option Manual → ℕ → Bool → Reason → Controller → Controller
close_manual none wall success reason s = s
close_manual (some m) wall success reason s =
    let entries = with_entry s.calibration m.duty (calibration_entry wall success reason m) in
    if not m.calibration
    then record s { manual = none }
    else record s { calibration = entries; saved_calibration = entries; manual = none }

unfoldable pub finish_manual : ℕ → Bool → Reason → Controller → Controller
unfolding close_manual
finish_manual wall success reason s = close_manual s.manual wall success reason s

abbrev pub join : (ℕ → ℕ → ℕ) → Option ℕ → ℕ → ℕ
join f none x = x
join f (some y) x = f y x

-- The extremes of the fan's speed and of the temperature.
abbrev pub observed : FanTarget → Option ℕ → Manual → Manual
observed target temperature m =
    let spun =
      if ltb 0 target.rpm
      then record m {
        min_rpm = some (join min m.min_rpm target.rpm);
        max_rpm = some (join max m.max_rpm target.rpm);
      }
      else m in
    elim temperature [
      | none ↦ spun
      | some t ↦ record spun { max_temperature = some (join max m.max_temperature t) }
    ]

-- `_update_manual_observations` once `self.manual` and its `commanded_at` are read.
unfoldable pub observe_manual :
    Option Manual → ℕ → FanTarget → Option GpuSample → Controller → Controller
observe_manual none clock target sample s = s
observe_manual (some m) clock target sample s = elim m.commanded_at [
  | none ↦ s
  | some at ↦
      if ltb clock (at + 5000)
      then s
      else record s { manual = some (observed target (sampled_temperature sample) m) }
]

unfoldable pub update_manual_observations :
    ℕ → FanTarget → Option GpuSample → Controller → Controller
unfolding observe_manual
update_manual_observations clock target sample s = observe_manual s.manual clock target sample s
