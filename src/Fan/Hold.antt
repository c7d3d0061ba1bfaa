-- ===== src/Fan/Hold.antt =====
-- pocisys-gpu-runtime/fan_controller.py: the full-speed minute after the GPU was busy.
pub mod Trace
use gauge_umbrel_community.Prelude.{
  ℕ, ◌+◌, ◌≤◌, ◌<◌, ◌≡◌, ◌⊎◌, inl, inr, refl, Bool, true, false, not, Option, none, some, List, [],
  ◌∷◌, ◌++◌, ◌&&◌, ◌||◌, arith, if◌then◌else◌, Bool-cases, subst, sym, ap, ◌∙◌, All, ltb, leb, any,
  is_empty, text_eq,
}
use gauge_umbrel_community.Fan.State.{GpuSample, FanTarget, Controller, Action, Command, Reason}
use gauge_umbrel_community.Fan.Manual.{
  is_calibration_duty, passed, before, calibration_order, gpu_is_stable, read_field, run_action,
  consume_command, update_manual_observations,
}
use gauge_umbrel_community.Fan.Select.{Selection, select_lease, select_duty, abort_below_full}
use gauge_umbrel_community.Fan.Tick.{
  TickInput, Status, TickResult, ticked, failed, SpeedCall, connect, choose_duty, Drive, send_duty,
  drive, make_status, take_sample, tick, run_statuses,
}
use gauge_umbrel_community.Fan.Invariant.{
  guarded, IsValid, after, connect-IsValid, update_manual_observations-IsValid, tick-IsValid,
}
use gauge_umbrel_community.Fan.Failsafe.{
  tick-eq-ticked, consumed-IsValid, tick_hub-eq-ticked, hub_target, hub_connected, hub_drive,
  tick_below_full,
}
use gauge_umbrel_community.Fan.Device.{choose_duty-bounds, make_status-percent}

run_action-busy_until :
    (a : Action) (clock : ℕ) (g : Option GpuSample) (d n : Option ℕ) (e : Bool) (s : Controller)
    → (run_action a clock g d n e s).0.busy_until ≡ s.busy_until
unfolding run_action
run_action-busy_until Action.manual clock g (some d) (some n) e s =
    guarded (λ x. x.busy_until ≡ s.busy_until)
      (not (is_calibration_duty d) || not (leb 20000 n && leb n 30000))
      (any (λ prior. not (passed s.calibration prior)) (before d calibration_order))
      (ltb d 100 && not (gpu_is_stable clock s)) s _ refl λ _ _. refl
run_action-busy_until Action.manual clock g (some d) none e s = refl
run_action-busy_until Action.manual clock g none n e s = refl
run_action-busy_until Action.automatic clock g d n e s = refl
run_action-busy_until Action.force_100 clock g d n e s = refl
run_action-busy_until Action.other clock g d n e s = refl

pub consume_command-busy_until :
    (clock : ℕ) (g : Option GpuSample) (c : Command) (s : Controller)
    → (consume_command clock g c s).0.busy_until ≡ s.busy_until
unfolding consume_command
consume_command-busy_until clock g c s = ground (
  arith,
  run_action-busy_until c.action clock g (read_field 100 c.duty) (read_field 25000 c.duration)
      c.enabled (record s { last_command_id = c.id }),
)

pub take_sample-busy_until :
    (now : ℕ) (g : Option GpuSample) (s : Controller)
    → (take_sample now g s).busy_until ≡ s.busy_until
unfolding take_sample
take_sample-busy_until now none s = refl
take_sample-busy_until now (some g) s = ground arith

pub connect-busy_until :
    (now : ℕ) (a : Bool) (t : Option FanTarget) (s : Controller)
    → (connect now a t s).0.busy_until ≡ s.busy_until
unfolding connect
connect-busy_until now a t s = ground arith

observations-busy_until :
    (clock : ℕ) (t : FanTarget) (g : Option GpuSample) (s : Controller)
    → (update_manual_observations clock t g s).busy_until ≡ s.busy_until
unfolding update_manual_observations
observations-busy_until clock t g s = ground arith

abort-busy_until :
    (wall : ℕ) (r : Reason) (s : Controller) → (abort_below_full wall r s).busy_until ≡ s.busy_until
unfolding abort_below_full
abort-busy_until wall r s = ground arith

lease-busy_until :
    (wall now : ℕ) (g : GpuSample) (s : Controller)
    → (select_lease s.manual wall now g s).state.busy_until ≡ s.busy_until
unfolding select_lease
lease-busy_until wall now g s = ground arith

-- The hold is left alone, or set to a minute from now; it is set where the GPU is busy.
select-busy_until :
    (wall now : ℕ) (g : GpuSample) (s : Controller)
    → (select_duty wall now (some g) s).state.busy_until
      ≡ (if leb 10000 g.utilization then now + 60000 else s.busy_until)
unfolding select_duty
select-busy_until wall now g s = ground (
  arith,
  lease-busy_until wall now g s,
  abort-busy_until wall Reason.temperature_reached s,
  abort-busy_until wall Reason.utilization_reached (record s { busy_until = now + 60000 }),
)

abbrev pub held : ℕ → Option GpuSample → ℕ → ℕ
held now none b = b
held now (some g) b = if leb 10000 g.utilization then now + 60000 else b

select_sample-busy_until :
    (wall now : ℕ) (g : Option GpuSample) (s : Controller)
    → (select_duty wall now g s).state.busy_until ≡ held now g s.busy_until
select_sample-busy_until wall now none s = unfold select_duty in refl
select_sample-busy_until wall now (some g) s = select-busy_until wall now g s

choose-busy_until :
    (wall now : ℕ) (t : FanTarget) (g : Option GpuSample) (s : Controller)
    → (choose_duty wall now t g s).state.busy_until ≡ held now g s.busy_until
unfolding choose_duty
choose-busy_until wall now t g s = ground (
  arith,
  select_sample-busy_until wall now g s,
  abort-busy_until wall Reason.rpm_zero (select_duty wall now g s).state,
)

send-busy_until :
    (now : ℕ) (a r : Bool) (c : Selection)
    → (send_duty now a r c).state.busy_until ≡ c.state.busy_until
unfolding send_duty
send-busy_until now a r c = ground arith

pub drive-busy_until :
    (i : TickInput) (t : FanTarget) (s : Controller)
    → (drive i (some t) s).state.busy_until ≡ held i.now i.sample s.busy_until
unfolding drive
drive-busy_until i t s =
    let s' = update_manual_observations i.observe_clock t i.sample s in
    send-busy_until i.now i.send_accepted i.retry_accepted (choose_duty i.wall i.now t i.sample s')
    ∙ choose-busy_until i.wall i.now t i.sample s'
    ∙ ap (held i.now i.sample) (observations-busy_until i.observe_clock t i.sample s)
