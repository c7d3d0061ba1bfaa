-- ===== src/Fan/Resync.antt =====
-- pocisys-gpu-runtime/fan_controller.py, `tick`: what the heartbeat of its commands mends.
use gauge_umbrel_community.Prelude.{
  ℕ, ◌+◌, ◌≤◌, ◌<◌, ◌≡◌, ◌⊎◌, inl, inr, refl, Bool, true, Option, none, some, List, [], ◌∷◌, ◌++◌,
  arith, sym, ap, ◌∙◌,
}
use gauge_umbrel_community.Fan.State.{GpuSample, FanTarget, Controller, Action, Command, Reason}
use gauge_umbrel_community.Fan.Manual.{
  consume_command, read_field, run_action, update_manual_observations,
}
use gauge_umbrel_community.Fan.Select.{Selection, select_lease, select_duty, abort_below_full}
use gauge_umbrel_community.Fan.Tick.{
  TickInput, Status, ticked, SpeedCall, set_speed, connect, choose_duty, Drive, send_duty, drive,
  take_sample, tick,
}
use gauge_umbrel_community.Fan.Invariant.{
  IsValid, connect-IsValid, update_manual_observations-IsValid,
}
use gauge_umbrel_community.Fan.Safety.{hub_after}
use gauge_umbrel_community.Fan.Device.{
  choose_duty-bounds, make_status-command_ok, make_status-percent, set_speed_value,
  choose-last_sent_duty, observations-last_sent_duty,
}
use gauge_umbrel_community.Fan.Failsafe.{
  tick-eq-ticked, consumed-IsValid, tick_hub-eq-ticked, hub_target, hub_connected, hub_drive,
}

-- A request that was answered last is what the hub holds.
hub_after-append :
    (losses : List Bool) (h : Option ℕ) (cs : List SpeedCall) (c : SpeedCall)
    → c.accepted ≡ true
    → hub_after losses h (cs ++ c ∷ []) ≡ some c.value
hub_after-append [] h [] c yes' = rw yes' refl
hub_after-append (l ∷ losses) h [] c yes' = rw yes' refl
hub_after-append [] h (x ∷ cs) c yes' = hub_after-append [] _ cs c yes'
hub_after-append (l ∷ losses) h (x ∷ cs) c yes' = hub_after-append losses _ cs c yes'

take_sample-last_sent_at :
    (now : ℕ) (g : Option GpuSample) (s : Controller)
    → (take_sample now g s).last_sent_at ≡ s.last_sent_at
unfolding take_sample
take_sample-last_sent_at now none s = refl
take_sample-last_sent_at now (some g) s = ground arith

run_action-last_sent_at :
    (a : Action) (clock : ℕ) (g : Option GpuSample) (d n : Option ℕ) (e : Bool) (s : Controller)
    → (run_action a clock g d n e s).0.last_sent_at ≡ s.last_sent_at
unfolding run_action
run_action-last_sent_at Action.manual clock g (some d) (some n) e s = ground arith
run_action-last_sent_at Action.manual clock g (some d) none e s = refl
run_action-last_sent_at Action.manual clock g none n e s = refl
run_action-last_sent_at Action.automatic clock g d n e s = ground arith
run_action-last_sent_at Action.force_100 clock g d n e s = refl
run_action-last_sent_at Action.other clock g d n e s = refl

consume_command-last_sent_at :
    (clock : ℕ) (g : Option GpuSample) (c : Command) (s : Controller)
    → (consume_command clock g c s).0.last_sent_at ≡ s.last_sent_at
unfolding consume_command
consume_command-last_sent_at clock g c s = ground (
  arith,
  run_action-last_sent_at c.action clock g (read_field 100 c.duty) (read_field 25000 c.duration)
      c.enabled (record s { last_command_id = c.id }),
)

observations-last_sent_at :
    (clock : ℕ) (t : FanTarget) (g : Option GpuSample) (s : Controller)
    → (update_manual_observations clock t g s).last_sent_at ≡ s.last_sent_at
unfolding update_manual_observations
observations-last_sent_at clock t g s = ground arith

abort-last_sent_at :
    (wall : ℕ) (r : Reason) (s : Controller)
    → (abort_below_full wall r s).last_sent_at ≡ s.last_sent_at
unfolding abort_below_full
abort-last_sent_at wall r s = ground arith

lease-last_sent_at :
    (wall now : ℕ) (g : GpuSample) (s : Controller)
    → (select_lease s.manual wall now g s).state.last_sent_at ≡ s.last_sent_at
unfolding select_lease
lease-last_sent_at wall now g s = ground arith

select-last_sent_at :
    (wall now : ℕ) (g : Option GpuSample) (s : Controller)
    → (select_duty wall now g s).state.last_sent_at ≡ s.last_sent_at
unfolding select_duty
select-last_sent_at wall now none s = refl
select-last_sent_at wall now (some g) s = ground (
  arith,
  lease-last_sent_at wall now g s,
  abort-last_sent_at wall Reason.temperature_reached s,
  abort-last_sent_at wall Reason.utilization_reached (record s { busy_until = now + 60000 }),
)

choose-last_sent_at :
    (wall now : ℕ) (t : FanTarget) (g : Option GpuSample) (s : Controller)
    → (choose_duty wall now t g s).state.last_sent_at ≡ s.last_sent_at
unfolding choose_duty
choose-last_sent_at wall now t g s = ground (
  arith,
  select-last_sent_at wall now g s,
  abort-last_sent_at wall Reason.rpm_zero (select_duty wall now g s).state,
)

-- The duty is that of a request that was answered, or the one noted less than thirty seconds ago.
abbrev IsCommanded : ℕ → Controller → Drive → Type 0
IsCommanded now s d =
    (d.calls ≡ set_speed d.duty true ∷ [])
    ⊎ ((d.calls ≡ []) × (s.last_sent_duty ≡ some d.duty) × (now < s.last_sent_at + 30000))

send_duty-IsCommanded :
    (now : ℕ) (a r : Bool) (c : Selection)
    → (send_duty now a r c).command_ok ≡ true
    → IsCommanded now c.state (send_duty now a r c)
unfolding send_duty
send_duty-IsCommanded now a r c online = ground arith

connect-last_sent :
    (now : ℕ) (a : Bool) (t : Option FanTarget) (s : Controller)
    → ((connect now a t s).0.last_sent_at ≡ s.last_sent_at)
      ⊎ (((connect now a t s).1 ≡ set_speed 100 true ∷ [])
          × ((connect now a t s).0.last_sent_duty ≡ some 100))
unfolding connect
connect-last_sent now a none s = inl refl
connect-last_sent now a (some t) s = ground arith

send_duty-duty :
    (now : ℕ) (a r : Bool) (c : Selection)
    → (send_duty now a r c).command_ok ≡ true
    → (send_duty now a r c).duty ≡ c.duty
unfolding send_duty
send_duty-duty now a r c online = ground arith

moved :
    (now : ℕ) (s s' : Controller) (d : Drive)
    → s.last_sent_duty ≡ s'.last_sent_duty
    → s.last_sent_at ≡ s'.last_sent_at
    → IsCommanded now s d
    → IsCommanded now s' d
moved now s s' d duty at (inl sent) = inl sent
moved now s s' d duty at (inr (quiet, noted, early)) = inr (quiet, sym duty ∙ noted, omega arith)

answered : (d : ℕ) → (set_speed d true).accepted ≡ true
unfolding set_speed
answered d = refl

drive-IsCommanded :
    (i : TickInput) (t : Option FanTarget) (s : Controller)
    → IsValid s
    → (drive i t s).command_ok ≡ true
    → (40 ≤ (drive i t s).duty) × ((drive i t s).duty ≤ 100) × IsCommanded i.now s (drive i t s)
unfolding drive
drive-IsCommanded i none s v online = cc
drive-IsCommanded i (some t) s v online =
    let s' = update_manual_observations i.observe_clock t i.sample s in
    let c = choose_duty i.wall i.now t i.sample s' in
    let duty = send_duty-duty i.now i.send_accepted i.retry_accepted c online in
    let bounds =
      choose_duty-bounds i.wall i.now t i.sample s'
        (update_manual_observations-IsValid i.observe_clock t i.sample s v) in
    let noted : c.state.last_sent_duty ≡ s.last_sent_duty =
      choose-last_sent_duty i.wall i.now t i.sample s'
      ∙ observations-last_sent_duty i.observe_clock t i.sample s in
    let at : c.state.last_sent_at ≡ s.last_sent_at =
      choose-last_sent_at i.wall i.now t i.sample s'
      ∙ observations-last_sent_at i.observe_clock t i.sample s in
    let commanded = send_duty-IsCommanded i.now i.send_accepted i.retry_accepted c online in
    (
      omega (arith, duty, bounds.0),
      omega (arith, duty, bounds.1),
      moved i.now c.state s (send_duty i.now i.send_accepted i.retry_accepted c) noted at commanded,
    )

-- What the hub holds after the requests of a connection and of a selected duty.
hub_after-IsCommanded :
    (now : ℕ) (losses : List Bool) (h : Option ℕ) (s s' : Controller) (cs : List SpeedCall)
    (d : Drive)
    → s.last_sent_at + 30000 ≤ now
    → 40 ≤ d.duty
    → d.duty ≤ 100
    → (s'.last_sent_at ≡ s.last_sent_at)
      ⊎ ((cs ≡ set_speed 100 true ∷ []) × (s'.last_sent_duty ≡ some 100))
    → IsCommanded now s' d
    → hub_after losses h (cs ++ d.calls) ≡ some d.duty
hub_after-IsCommanded now losses h s s' cs d due lo hi connected (inl sent) = rw sent (
    hub_after-append losses h cs (set_speed d.duty true) (answered d.duty)
    ∙ ap some (set_speed_value d.duty true lo hi))
hub_after-IsCommanded now losses h s s' cs d due lo hi (inl at) (inr (quiet, noted, early)) =
    absurd (omega (arith, at, due, early))
hub_after-IsCommanded now losses h s s' cs d due lo hi (inr (full, noted'))
      (inr (quiet, noted, early)) =
    rw (quiet, full)
      (hub_after-append losses h [] (set_speed 100 true) (answered 100)
        ∙ ap some (set_speed_value 100 true (omega arith) (omega arith))
        ∙ sym noted'
        ∙ noted)

-- Thirty seconds after the last command that was answered, a tick that reports online leaves the hub
-- at exactly the target that its status reports, whatever the hub held before, and whichever requests
-- it has applied though they ended with an exception.
pub tick_resyncs :
    (i : TickInput) (h : Option ℕ) (losses : List Bool) (s : Controller) {s' : Controller}
    {st : Status} {calls : List SpeedCall}
    → IsValid s
    → s.last_sent_at + 30000 ≤ i.now
    → tick i s ≡ ticked s' st calls
    → st.online ≡ true
    → hub_after losses h calls ≡ some st.target_percent
tick_resyncs i h losses s {s'} {st} {calls} v due e online =
    let (s₁, consumed, e₁) = tick-eq-ticked i s e in
    let (state, status, posted) = tick_hub-eq-ticked i s₁ e₁ in
    let at : s₁.last_sent_at ≡ s.last_sent_at =
      ap (λ r. r.0.last_sent_at) (sym consumed)
      ∙ consume_command-last_sent_at i.command_clock i.sample i.command _
      ∙ take_sample-last_sent_at i.now i.sample s in
    let target = hub_target i s₁ in
    let (lo, hi, commanded) =
      drive-IsCommanded i target (hub_connected i s₁).0
        (connect-IsValid i.now i.connect_accepted target s₁ (consumed-IsValid i s consumed v))
        (make_status-command_ok i target (hub_drive i s₁) (rw status online)) in
    ap (hub_after losses h) (sym posted)
    ∙ hub_after-IsCommanded i.now losses h s₁ (hub_connected i s₁).0 (hub_connected i s₁).1
        (hub_drive i s₁) (omega (arith, at, due)) lo hi
        (connect-last_sent i.now i.connect_accepted target s₁) commanded
    ∙ ap some
        (sym (make_status-percent i target (hub_drive i s₁)) ∙ ap (λ x. x.target_percent) status)
