-- ===== src/Fan/Automatic.antt =====
-- pocisys-gpu-runtime/fan_controller.py: when automatic control is switched on.
use gauge_umbrel_community.Prelude.{
  ℕ, ◌+◌, ◌≡◌, ◌⊎◌, inl, inr, refl, Bool, true, false, not, Option, none, some, List, ◌&&◌, ◌||◌,
  arith, Bool-cases, subst, sym, ap, ◌∙◌, all, ltb, leb, any, is_empty, text_eq,
}
use gauge_umbrel_community.Fan.State.{GpuSample, FanTarget, Controller, Action, Command, Reason}
use gauge_umbrel_community.Fan.Manual.{
  is_calibration_duty, passed, before, calibration_order, gpu_is_stable, read_field, run_action,
  consume_command, update_manual_observations,
}
use gauge_umbrel_community.Fan.Select.{Selection, select_lease, select_duty, abort_below_full}
use gauge_umbrel_community.Fan.Tick.{
  TickInput, Status, ticked, SpeedCall, connect, choose_duty, send_duty, drive, take_sample, tick,
}
use gauge_umbrel_community.Fan.Invariant.{guarded}
use gauge_umbrel_community.Fan.Failsafe.{
  tick-eq-ticked, tick_hub-eq-ticked, hub_target, hub_connected,
}

abbrev is_automatic : Controller → Bool
is_automatic s = s.settings.automatic_enabled

-- All four calibrations have passed.
abbrev pub is_calibrated : Controller → Bool
is_calibrated s = all (passed s.calibration) calibration_order

run_action-automatic :
    (a : Action) (clock : ℕ) (g : Option GpuSample) (d n : Option ℕ) (e : Bool) (s : Controller)
    → is_automatic (run_action a clock g d n e s).0 ≡ true
    → (is_automatic s ≡ true) ⊎ ((a ≡ Action.automatic) × (e ≡ true) × (is_calibrated s ≡ true))
unfolding run_action
run_action-automatic Action.manual clock g (some d) (some n) e s h = inl (
    subst (λ b. b ≡ true)
      (guarded (λ x. is_automatic x ≡ is_automatic s)
        (not (is_calibration_duty d) || not (leb 20000 n && leb n 30000))
        (any (λ prior. not (passed s.calibration prior)) (before d calibration_order))
        (ltb d 100 && not (gpu_is_stable clock s)) s _ refl (λ _ _. refl))
      h)
run_action-automatic Action.manual clock g (some d) none e s h = inl h
run_action-automatic Action.manual clock g none n e s h = inl h
run_action-automatic Action.automatic clock g d n true s h = inr (refl, refl, h)
run_action-automatic Action.automatic clock g d n false s h = cc
run_action-automatic Action.force_100 clock g d n e s h = inl h
run_action-automatic Action.other clock g d n e s h = inl h

consume_command-automatic :
    (clock : ℕ) (g : Option GpuSample) (c : Command) (s : Controller)
    → is_automatic (consume_command clock g c s).0 ≡ true
    → (is_automatic s ≡ true)
      ⊎ ((c.action ≡ Action.automatic) × (c.enabled ≡ true) × (is_calibrated s ≡ true))
unfolding consume_command
consume_command-automatic clock g c s h =
    elim (Bool-cases (is_empty c.id || text_eq c.id s.last_command_id)) [
      | inl old ↦ inl (rw old at h)
      | inr new ↦
          run_action-automatic c.action clock g (read_field 100 c.duty)
            (read_field 25000 c.duration) c.enabled (record s { last_command_id = c.id })
            (rw new at h)
    ]

take_sample-automatic :
    (now : ℕ) (g : Option GpuSample) (s : Controller)
    → (is_automatic (take_sample now g s) ≡ is_automatic s)
      × (is_calibrated (take_sample now g s) ≡ is_calibrated s)
unfolding take_sample
take_sample-automatic now none s = (refl, refl)
take_sample-automatic now (some g) s = ground arith

connect-automatic :
    (now : ℕ) (a : Bool) (t : Option FanTarget) (s : Controller)
    → is_automatic (connect now a t s).0 ≡ is_automatic s
unfolding connect
connect-automatic now a t s = ground arith

observations-automatic :
    (clock : ℕ) (t : FanTarget) (g : Option GpuSample) (s : Controller)
    → is_automatic (update_manual_observations clock t g s) ≡ is_automatic s
unfolding update_manual_observations
observations-automatic clock t g s = ground arith

abort-automatic :
    (wall : ℕ) (r : Reason) (s : Controller)
    → is_automatic (abort_below_full wall r s) ≡ is_automatic s
unfolding abort_below_full
abort-automatic wall r s = ground arith

lease-automatic :
    (wall now : ℕ) (g : GpuSample) (s : Controller)
    → is_automatic (select_lease s.manual wall now g s).state ≡ is_automatic s
unfolding select_lease
lease-automatic wall now g s = ground arith

select-automatic :
    (wall now : ℕ) (g : Option GpuSample) (s : Controller)
    → is_automatic (select_duty wall now g s).state ≡ is_automatic s
unfolding select_duty
select-automatic wall now none s = refl
select-automatic wall now (some g) s = ground (
  arith,
  lease-automatic wall now g s,
  abort-automatic wall Reason.temperature_reached s,
  abort-automatic wall Reason.utilization_reached (record s { busy_until = now + 60000 }),
)

choose-automatic :
    (wall now : ℕ) (t : FanTarget) (g : Option GpuSample) (s : Controller)
    → is_automatic (choose_duty wall now t g s).state ≡ is_automatic s
unfolding choose_duty
choose-automatic wall now t g s = ground (
  arith,
  select-automatic wall now g s,
  abort-automatic wall Reason.rpm_zero (select_duty wall now g s).state,
)

send-automatic :
    (now : ℕ) (a r : Bool) (c : Selection)
    → is_automatic (send_duty now a r c).state ≡ is_automatic c.state
unfolding send_duty
send-automatic now a r c = ground arith

drive-automatic :
    (i : TickInput) (t : Option FanTarget) (s : Controller)
    → is_automatic (drive i t s).state ≡ is_automatic s
unfolding drive
drive-automatic i none s = refl
drive-automatic i (some t) s =
    let s' = update_manual_observations i.observe_clock t i.sample s in
    send-automatic i.now i.send_accepted i.retry_accepted (choose_duty i.wall i.now t i.sample s')
    ∙ choose-automatic i.wall i.now t i.sample s'
    ∙ observations-automatic i.observe_clock t i.sample s

-- A tick that ends with automatic control on began with it on, or it read a command of the action
-- `automatic` that enables it, while all four calibrations had passed.
pub tick_enables_automatic :
    (i : TickInput) (s : Controller) {s' : Controller} {st : Status} {calls : List SpeedCall}
    → tick i s ≡ ticked s' st calls
    → s'.settings.automatic_enabled ≡ true
    → (s.settings.automatic_enabled ≡ true)
      ⊎ ((i.command.action ≡ Action.automatic)
          × (i.command.enabled ≡ true)
          × (is_calibrated s ≡ true))
tick_enables_automatic i s {s'} e h =
    let (s₁, consumed, e₁) = tick-eq-ticked i s e in
    let (state, status, posted) = tick_hub-eq-ticked i s₁ e₁ in
    let on : is_automatic s₁ ≡ true =
      sym (
        drive-automatic i (hub_target i s₁) (hub_connected i s₁).0
        ∙ connect-automatic i.now i.connect_accepted (hub_target i s₁) s₁)
      ∙ ap is_automatic state
      ∙ h in
    let (same, same') = take_sample-automatic i.now i.sample s in
    elim (consume_command-automatic i.command_clock i.sample i.command
      (take_sample i.now i.sample s) (ap (λ r. is_automatic r.0) consumed ∙ on)) [
        | inl was ↦ inl (sym same ∙ was)
        | inr (action, asked, passed_all) ↦ inr (action, asked, sym same' ∙ passed_all)
      ]
