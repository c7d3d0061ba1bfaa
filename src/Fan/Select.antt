-- ===== src/Fan/Select.antt =====
-- pocisys-gpu-runtime/fan_controller.py, `_select_duty`: the duty and the mode, and the state after
-- the calibrations that it finishes.
use gauge_umbrel_community.Prelude.{
  ℕ, zero, suc, ◌+◌, Bool, true, false, Option, none, some, ltb, leb, if◌then◌else◌,
}
use gauge_umbrel_community.Fan.Curve.{temperature_duty}
use gauge_umbrel_community.Fan.State.{
  GpuSample, Reason, utilization_reached, temperature_reached, temperature_rose, completed, no_rpm,
  Manual, Controller, Mode, invalid_gpu_telemetry, gpu_busy, temperature_failsafe, gpu_cooldown,
  controller_reconnect, calibration_aborted, forced_full_speed_complete, calibration_complete,
  rpm_failsafe, manual_calibration, automatic_temperature_curve, automatic_disabled,
}
use gauge_umbrel_community.Fan.Manual.{finish_manual}

-- The state after the call, and its result.
pub record Selection : Type 0 where
  pub state : Controller
  pub duty : ℕ
  pub mode : Mode

abbrev pub select : Controller → ℕ → Mode → Selection
select s d m = record { state = s; duty = d; mode = m }

-- `if self.manual and int(self.manual["duty"]) < 100: self._finish_manual(False, reason)`
unfoldable pub abort_below_full : ℕ → Reason → Controller → Controller
unfolding finish_manual
abort_below_full wall reason s = elim s.manual [
  | none ↦ s
  | some m ↦ if ltb m.duty 100 then finish_manual wall false reason s else s
]

-- `success = self.manual.get("min_rpm") not in (None, 0)`
abbrev pub rpm_seen : Option ℕ → Bool
rpm_seen none = false
rpm_seen (some zero) = false
rpm_seen (some (suc _)) = true

-- `start_temp is not None and temperature >= start_temp + 5`
abbrev pub has_warmed : Option ℕ → ℕ → Bool
has_warmed none t = false
has_warmed (some start) t = leb (start + 5000) t

-- The branch `if self.manual`.
unfoldable pub select_manual : ℕ → ℕ → GpuSample → Manual → Controller → Selection
unfolding finish_manual
select_manual wall now g m s =
    if (if ltb m.duty 100 then has_warmed m.start_temperature g.temperature else false)
    then select (finish_manual wall false temperature_rose s) 100 calibration_aborted
    else if leb m.expires_at now
    then if m.calibration
      then if rpm_seen m.min_rpm
        then select (finish_manual wall true completed s) 100 calibration_complete
        else select (finish_manual wall false no_rpm s) 100 rpm_failsafe
      else select (finish_manual wall true completed s) 100 forced_full_speed_complete
    else select s m.duty manual_calibration

-- The end of the method: the manual lease, or the automatic curve.
unfoldable pub select_lease : Option Manual → ℕ → ℕ → GpuSample → Controller → Selection
unfolding select_manual temperature_duty
select_lease (some m) wall now g s = select_manual wall now g m s
select_lease none wall now g s =
    if s.settings.automatic_enabled
    then select s (temperature_duty g.temperature) automatic_temperature_curve
    else select s 100 automatic_disabled

unfoldable pub select_duty : ℕ → ℕ → Option GpuSample → Controller → Selection
select_duty wall now none s = select s 100 invalid_gpu_telemetry
select_duty wall now (some g) s =
    if leb 10000 g.utilization
    then select (abort_below_full wall utilization_reached (record s { busy_until = now + 60000 }))
        100 gpu_busy
    else if leb 70000 g.temperature
    then select (abort_below_full wall temperature_reached s) 100 temperature_failsafe
    else if ltb now s.busy_until
    then select s 100 gpu_cooldown
    else if ltb now s.reconnect_until
    then select s 100 controller_reconnect
    else select_lease s.manual wall now g s
