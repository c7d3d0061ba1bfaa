-- ===== src/Fan/Device.antt =====
-- pocisys-gpu-runtime/fan_controller.py, `tick`: what the hub has been told. The hub holds the value
-- of the last request that it has applied.
use gauge_umbrel_community.Prelude.{
  not, ◌||◌, leb, ltb, any, is_empty, text_eq, ℕ, ◌+◌, ◌≤◌, ◌≡◌, ◌⊎◌, inl, inr, refl, Bool, true,
  false, Option, none, some, List, arith, Bool-cases, subst, sym, ap, ◌∙◌, ◌&&◌,
}
use gauge_umbrel_community.Fan.Curve.Bounds.{temperature_duty_curve}
use gauge_umbrel_community.Fan.State.{GpuSample, FanTarget, Controller, Action, Command, Reason}
use gauge_umbrel_community.Fan.Manual.{
  consume_command, is_calibration_duty, passed, before, calibration_order, gpu_is_stable,
  read_field, run_action, update_manual_observations,
}
use gauge_umbrel_community.Fan.Select.{Selection, select_lease, select_duty, abort_below_full}
use gauge_umbrel_community.Fan.Tick.{
  TickInput, Status, ticked, SpeedCall, set_speed, connect, choose_duty, Drive, send_duty, drive,
  make_status, take_sample, tick,
}
use gauge_umbrel_community.Fan.Invariant.{
  guarded, IsValid, connect-IsValid, update_manual_observations-IsValid,
}
use gauge_umbrel_community.Fan.Safety.{
  hub_duty, hub_duty-append, hub_after, IsLossless, hub_after-IsLossless,
}
use gauge_umbrel_community.Fan.Failsafe.{
  tick-eq-ticked, consumed-IsValid, tick_hub-eq-ticked, hub_target, hub_connected, hub_drive,
}

-- What the controller remembers of its last command is what the hub holds.
abbrev pub IsSynced : Option ℕ → Controller → Type 0
IsSynced h s = (s.last_sent_duty ≡ none) ⊎ (s.last_sent_duty ≡ h)

pub set_speed_value : (d : ℕ) (a : Bool) → 40 ≤ d → d ≤ 100 → (set_speed d a).value ≡ d
unfolding set_speed
set_speed_value d a lo hi = ground arith

set_speed_accepted : (d : ℕ) (a : Bool) → (set_speed d a).accepted ≡ a
unfolding set_speed
set_speed_accepted d a = refl

-- The duty that is chosen lies in the range in which a request posts it unchanged.
select_lease-bounds :
    (wall now : ℕ) (g : GpuSample) (s : Controller)
    → IsValid s
    → let d = (select_lease s.manual wall now g s).duty in (40 ≤ d) × (d ≤ 100)
unfolding select_lease
select_lease-bounds wall now g s v =
    ground (arith, temperature_duty_curve g.temperature g.temperature)

pub choose_duty-bounds :
    (wall now : ℕ) (t : FanTarget) (sample : Option GpuSample) (s : Controller)
    → IsValid s
    → let d = (choose_duty wall now t sample s).duty in (40 ≤ d) × (d ≤ 100)
unfolding choose_duty select_duty
choose_duty-bounds wall now t none s v = ground arith
choose_duty-bounds wall now t (some g) s v = ground (arith, select_lease-bounds wall now g s v)

connect-IsSynced :
    (now : ℕ) (a : Bool) (t : Option FanTarget) (h : Option ℕ) (s : Controller)
    → IsSynced h s
    → IsSynced (hub_duty h (connect now a t s).1) (connect now a t s).0
unfolding connect
connect-IsSynced now a t h s y = ground (
  arith,
  set_speed_value 100 true (omega arith) (omega arith),
  set_speed_accepted 100 true,
  set_speed_accepted 100 false,
)

send_duty-IsSynced :
    (now : ℕ) (a r : Bool) (h : Option ℕ) (c : Selection)
    → 40 ≤ c.duty
    → c.duty ≤ 100
    → IsSynced h c.state
    → IsSynced (hub_duty h (send_duty now a r c).calls) (send_duty now a r c).state
      × ((send_duty now a r c).command_ok ≡ true
          → hub_duty h (send_duty now a r c).calls ≡ some (send_duty now a r c).duty)
unfolding send_duty
send_duty-IsSynced now a r h c lo hi y = ground (
  arith,
  set_speed_value c.duty true lo hi,
  set_speed_value 100 true,
  set_speed_accepted c.duty a,
  set_speed_accepted 100 r,
  set_speed_value 100 r,
)

take_sample-IsSynced :
    (now : ℕ) (g : Option GpuSample) (h : Option ℕ) (s : Controller)
    → IsSynced h s
    → IsSynced h (take_sample now g s)
unfolding take_sample
take_sample-IsSynced now none h s y = y
take_sample-IsSynced now (some g) h s y = ground arith

run_action-IsSynced :
    (a : Action) (clock : ℕ) (g : Option GpuSample) (d n : Option ℕ) (e : Bool) (h : Option ℕ)
    (s : Controller)
    → IsSynced h s
    → IsSynced h (run_action a clock g d n e s).0
unfolding run_action
run_action-IsSynced Action.manual clock g (some d) (some n) e h s y =
    guarded (IsSynced h) (not (is_calibration_duty d) || not (leb 20000 n && leb n 30000))
      (any (λ prior. not (passed s.calibration prior)) (before d calibration_order))
      (ltb d 100 && not (gpu_is_stable clock s)) s _ y λ _ _. inl refl
run_action-IsSynced Action.manual clock g (some d) none e h s y = y
run_action-IsSynced Action.manual clock g none n e h s y = y
run_action-IsSynced Action.automatic clock g d n e h s y = y
run_action-IsSynced Action.force_100 clock g d n e h s y = inl refl
run_action-IsSynced Action.other clock g d n e h s y = y

consume_command-IsSynced :
    (clock : ℕ) (g : Option GpuSample) (c : Command) (h : Option ℕ) (s : Controller)
    → IsSynced h s
    → IsSynced h (consume_command clock g c s).0
unfolding consume_command
consume_command-IsSynced clock g c h s y =
    elim (Bool-cases (is_empty c.id || text_eq c.id s.last_command_id)) [
      | inl old ↦ rw old y
      | inr new ↦ rw new (
          run_action-IsSynced c.action clock g (read_field 100 c.duty) (read_field 25000 c.duration)
            c.enabled h (record s { last_command_id = c.id }) y)
    ]

pub observations-last_sent_duty :
    (clock : ℕ) (t : FanTarget) (g : Option GpuSample) (s : Controller)
    → (update_manual_observations clock t g s).last_sent_duty ≡ s.last_sent_duty
unfolding update_manual_observations
observations-last_sent_duty clock t g s = ground arith

abort-last_sent_duty :
    (wall : ℕ) (r : Reason) (s : Controller)
    → (abort_below_full wall r s).last_sent_duty ≡ s.last_sent_duty
unfolding abort_below_full
abort-last_sent_duty wall r s = ground arith

lease-last_sent_duty :
    (wall now : ℕ) (g : GpuSample) (s : Controller)
    → (select_lease s.manual wall now g s).state.last_sent_duty ≡ s.last_sent_duty
unfolding select_lease
lease-last_sent_duty wall now g s = ground arith

select-last_sent_duty :
    (wall now : ℕ) (g : Option GpuSample) (s : Controller)
    → (select_duty wall now g s).state.last_sent_duty ≡ s.last_sent_duty
unfolding select_duty
select-last_sent_duty wall now none s = refl
select-last_sent_duty wall now (some g) s = ground (
  arith,
  lease-last_sent_duty wall now g s,
  abort-last_sent_duty wall Reason.temperature_reached s,
  abort-last_sent_duty wall Reason.utilization_reached (record s { busy_until = now + 60000 }),
)

pub choose-last_sent_duty :
    (wall now : ℕ) (t : FanTarget) (g : Option GpuSample) (s : Controller)
    → (choose_duty wall now t g s).state.last_sent_duty ≡ s.last_sent_duty
unfolding choose_duty
choose-last_sent_duty wall now t g s = ground (
  arith,
  select-last_sent_duty wall now g s,
  abort-last_sent_duty wall Reason.rpm_zero (select_duty wall now g s).state,
)

drive-IsSynced :
    (i : TickInput) (target : Option FanTarget) (h : Option ℕ) (s : Controller)
    → IsValid s
    → IsSynced h s
    → IsSynced (hub_duty h (drive i target s).calls) (drive i target s).state
      × ((drive i target s).command_ok ≡ true
          → hub_duty h (drive i target s).calls ≡ some (drive i target s).duty)
unfolding drive
drive-IsSynced i none h s v y = (y, λ ok. cc)
drive-IsSynced i (some t) h s v y =
    let s' = update_manual_observations i.observe_clock t i.sample s in
    let c = choose_duty i.wall i.now t i.sample s' in
    let bounds =
      choose_duty-bounds i.wall i.now t i.sample s'
        (update_manual_observations-IsValid i.observe_clock t i.sample s v) in
    send_duty-IsSynced i.now i.send_accepted i.retry_accepted h c bounds.0 bounds.1 (
      rw
        (
          choose-last_sent_duty i.wall i.now t i.sample s',
          observations-last_sent_duty i.observe_clock t i.sample s,
        )
        y)

pub make_status-command_ok :
    (i : TickInput) (t : Option FanTarget) (d : Drive)
    → (make_status i t d).online ≡ true
    → d.command_ok ≡ true
unfolding make_status
make_status-command_ok i t d h = ground arith

pub make_status-percent :
    (i : TickInput) (t : Option FanTarget) (d : Drive) → (make_status i t d).target_percent ≡ d.duty
unfolding make_status
make_status-percent i t d = refl

tick-hub_duty :
    (i : TickInput) (h : Option ℕ) (s : Controller) {s' : Controller} {st : Status}
    {calls : List SpeedCall}
    → IsValid s
    → IsSynced h s
    → tick i s ≡ ticked s' st calls
    → IsSynced (hub_duty h calls) s'
      × (st.online ≡ true → hub_duty h calls ≡ some st.target_percent)
tick-hub_duty i h s {s'} {st} {calls} v y e =
    let (s₁, consumed, e₁) = tick-eq-ticked i s e in
    let (state, status, posted) = tick_hub-eq-ticked i s₁ e₁ in
    let y₁ : IsSynced h s₁ = subst (IsSynced h) (ap (λ r. r.0) consumed) (
      consume_command-IsSynced i.command_clock i.sample i.command h _
        (take_sample-IsSynced i.now i.sample h s y)) in
    let target = hub_target i s₁ in
    let connected = hub_connected i s₁ in
    let (synced, exact) =
      drive-IsSynced i target (hub_duty h connected.1) connected.0
        (connect-IsValid i.now i.connect_accepted target s₁ (consumed-IsValid i s consumed v))
        (connect-IsSynced i.now i.connect_accepted target h s₁ y₁) in
    let hub : hub_duty (hub_duty h connected.1) (hub_drive i s₁).calls ≡ hub_duty h calls =
      sym (hub_duty-append h connected.1 (hub_drive i s₁).calls) ∙ ap (hub_duty h) posted in
    let percent : (hub_drive i s₁).duty ≡ st.target_percent =
      sym (make_status-percent i target (hub_drive i s₁)) ∙ ap (λ x. x.target_percent) status in
    (
      subst (λ x. IsSynced x s') hub
          (subst (IsSynced (hub_duty (hub_duty h connected.1) (hub_drive i s₁).calls)) state
            synced),
      λ online.
          sym hub
          ∙ exact (make_status-command_ok i target (hub_drive i s₁) (rw status online))
          ∙ ap some percent,
    )

-- From a valid state that agrees with the hub, a tick that ends leaves a state that agrees with the
-- hub after its requests, and where the status says online, the hub then holds exactly the target
-- that the status reports; unless the hub has applied a request of the tick that ended with an
-- exception.
pub tick-IsSynced :
    (i : TickInput) (h : Option ℕ) (losses : List Bool) (s : Controller) {s' : Controller}
    {st : Status} {calls : List SpeedCall}
    → IsValid s
    → IsSynced h s
    → IsLossless losses
    → tick i s ≡ ticked s' st calls
    → IsSynced (hub_after losses h calls) s'
      × (st.online ≡ true → hub_after losses h calls ≡ some st.target_percent)
tick-IsSynced i h losses s {s'} {st} {calls} v y kept e =
    rw (hub_after-IsLossless losses h calls kept) (tick-hub_duty i h s v y e)
