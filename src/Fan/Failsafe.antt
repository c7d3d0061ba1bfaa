-- ===== src/Fan/Failsafe.antt =====
-- pocisys-gpu-runtime/fan_controller.py, `tick`: when a tick answers below full speed.
use gauge_umbrel_community.Prelude.{
  ℕ, ◌≤◌, ◌<◌, ◌≡◌, ◌⊎◌, inl, inr, refl, Bool, true, false, Option, none, some, List, ◌++◌, arith,
  Bool-cases, is_none, ◌&&◌, ◌==◌, subst, sym, ap, ◌∙◌,
}
use gauge_umbrel_community.Fan.State.{GpuSample, FanTarget, Manual, Controller}
use gauge_umbrel_community.Fan.Manual.{consume_command, update_manual_observations}
use gauge_umbrel_community.Fan.Select.{Selection, select_duty}
use gauge_umbrel_community.Fan.Tick.{
  TickInput, Status, ticked, SpeedCall, connect, has_stalled, choose_duty, Drive, send_duty, drive,
  make_status, take_sample, tick_hub, unless_raised, tick, mark_commanded,
}
use gauge_umbrel_community.Fan.Invariant.{IsValid, take_sample-IsValid, consume_command-IsValid}
use gauge_umbrel_community.Fan.Safety.{IsAllowed, select_duty_below_full}

-- A tick that ends has run its hub part from a state that keeps the invariant.
pub tick-eq-ticked :
    (i : TickInput) (s : Controller) {s' : Controller} {st : Status} {calls : List SpeedCall}
    → tick i s ≡ ticked s' st calls
    → (s₁ : Controller) × (consume_command i.command_clock i.sample i.command
          (take_sample i.now i.sample s)
        ≡ (s₁, false))
      × (tick_hub i s₁ ≡ ticked s' st calls)
unfolding tick
tick-eq-ticked i s {s'} {st} {calls} e =
    go (consume_command i.command_clock i.sample i.command (take_sample i.now i.sample s)) e
  where
    go :
        (r : Controller × Bool)
        → unless_raised (tick_hub i) r ≡ ticked s' st calls
        → (s₁ : Controller) × (r ≡ (s₁, false)) × (tick_hub i s₁ ≡ ticked s' st calls)
    go (s₁, true) e₁ = cc
    go (s₁, false) e₁ = (s₁, refl, e₁)

pub consumed-IsValid :
    (i : TickInput) (s : Controller) {s₁ : Controller}
    → consume_command i.command_clock i.sample i.command (take_sample i.now i.sample s)
      ≡ (s₁, false)
    → IsValid s
    → IsValid s₁
consumed-IsValid i s e v = subst IsValid (ap (λ r. r.0) e) (
    consume_command-IsValid i.command_clock i.sample i.command _
      (take_sample-IsValid i.now i.sample s v))

-- What holds of the state where a duty below 100 percent has been chosen.
abbrev pub IsCool : ℕ → Option GpuSample → Controller → ℕ → Type 0
IsCool now sample s d =
    (g : GpuSample) × (sample ≡ some g)
    × (g.utilization < 10000)
    × (g.temperature < 70000)
    × (s.busy_until ≤ now)
    × (s.reconnect_until ≤ now)
    × IsAllowed now g s d

choose_duty-eq-select_duty :
    (wall now : ℕ) (t : FanTarget) (sample : Option GpuSample) (s : Controller)
    → (choose_duty wall now t sample s).duty < 100
    → (choose_duty wall now t sample s ≡ select_duty wall now sample s)
      × (has_stalled now t (select_duty wall now sample s).state ≡ false)
unfolding choose_duty
choose_duty-eq-select_duty wall now t sample s h = ground arith

choose_duty_below_full :
    (wall now : ℕ) (t : FanTarget) (sample : Option GpuSample) (s : Controller)
    → (choose_duty wall now t sample s).duty < 100
    → IsCool now sample s (choose_duty wall now t sample s).duty
      × (has_stalled now t s ≡ false)
      × ((choose_duty wall now t sample s).state ≡ s)
choose_duty_below_full wall now t sample s h =
    let (e, turning) = choose_duty-eq-select_duty wall now t sample s h in
    let (g, sampled, idle, cool, free, settled, allowed, same) =
      select_duty_below_full wall now sample s (subst (λ c. c.duty < 100) e h) in
    rw e (
      (g, sampled, idle, cool, free, settled, allowed),
      subst (λ x. has_stalled now t x ≡ false) same turning,
      same,
    )

mark_commanded_keeps :
    (d now : ℕ) (m : Manual)
    → (m' : Manual) × (mark_commanded d now (some m) ≡ some m')
      × (m'.duty ≡ m.duty)
      × (m'.expires_at ≡ m.expires_at)
mark_commanded_keeps d now m = elim (Bool-cases (m.duty == d && is_none m.commanded_at)) [
  | inl first ↦ (record m { commanded_at = some now }, rw first, refl, refl)
  | inr later ↦ (m, rw later, refl, refl)
]

-- The state with which a command that was accepted leaves the tick.
abbrev pub commanded : ℕ → ℕ → Controller → Controller
commanded d now s = record s {
  last_sent_duty = some d;
  last_sent_at = now;
  manual = mark_commanded d now s.manual;
}

commanded-IsAllowed :
    (d now : ℕ) (g : GpuSample) (s : Controller)
    → IsAllowed now g s d
    → IsAllowed now g (commanded d now s) d
commanded-IsAllowed d now g s (inl (m, e, same, early)) =
    let (m', e', same', later) = mark_commanded_keeps d now m in
    inl (m', rw e e', rw same' same, rw later early)
commanded-IsAllowed d now g s (inr (free, automatic, curve)) = inr (rw free, automatic, curve)

send_duty_below_full :
    (now : ℕ) (a r : Bool) (c : Selection)
    → (send_duty now a r c).duty < 100
    → ((send_duty now a r c).duty ≡ c.duty)
      × (((send_duty now a r c).state ≡ c.state)
          ⊎ ((send_duty now a r c).state ≡ commanded c.duty now c.state))
unfolding send_duty
send_duty_below_full now a r c h = ground arith

send_duty-IsCool :
    (now : ℕ) (a r : Bool) (sample : Option GpuSample) (c : Selection)
    → (send_duty now a r c).duty < 100
    → (c.duty < 100 → IsCool now sample c.state c.duty)
    → IsCool now sample (send_duty now a r c).state (send_duty now a r c).duty
send_duty-IsCool now a r sample c h cool =
    let (e, cases) = send_duty_below_full now a r c h in
    let (g, sampled, idle, cold, free, settled, allowed) = cool (subst (λ d. d < 100) e h) in
    elim cases [
      | inl same ↦ rw (e, same) (g, sampled, idle, cold, free, settled, allowed)
      | inr sent ↦
          rw (e, sent)
            (
              g,
              sampled,
              idle,
              cold,
              free,
              settled,
              commanded-IsAllowed c.duty now g c.state allowed,
            )
    ]

drive_below_full :
    (i : TickInput) (target : Option FanTarget) (s : Controller)
    → (drive i target s).duty < 100
    → IsCool i.now i.sample (drive i target s).state (drive i target s).duty
unfolding drive
drive_below_full i none s h = absurd (omega arith)
drive_below_full i (some t) s h =
    let s' = update_manual_observations i.observe_clock t i.sample s in
    let c = choose_duty i.wall i.now t i.sample s' in
    send_duty-IsCool i.now i.send_accepted i.retry_accepted i.sample c h λ low.
      let (cool, turning, same) = choose_duty_below_full i.wall i.now t i.sample s' low in
      rw same cool

-- The target and the connected state of a tick's hub part.
abbrev pub hub_target : TickInput → Controller → Option FanTarget
hub_target i s = i.discover s.settings.fan_serial s.settings.fan_channel

abbrev pub hub_connected : TickInput → Controller → Controller × List SpeedCall
hub_connected i s = connect i.now i.connect_accepted (hub_target i s) s

abbrev pub hub_drive : TickInput → Controller → Drive
hub_drive i s = drive i (hub_target i s) (hub_connected i s).0

-- What a tick that ends has left, by its parts.
pub tick_hub-eq-ticked :
    (i : TickInput) (s : Controller) {s' : Controller} {st : Status} {calls : List SpeedCall}
    → tick_hub i s ≡ ticked s' st calls
    → ((hub_drive i s).state ≡ s')
      × (make_status i (hub_target i s) (hub_drive i s) ≡ st)
      × ((hub_connected i s).1 ++ (hub_drive i s).calls ≡ calls)
unfolding tick_hub
tick_hub-eq-ticked i s e = (cc, cc, cc)

make_status-target_percent :
    (i : TickInput) (t : Option FanTarget) (d : Drive) → (make_status i t d).target_percent ≡ d.duty
unfolding make_status
make_status-target_percent i t d = refl

tick_hub_below_full :
    (i : TickInput) (s : Controller) {s' : Controller} {st : Status} {calls : List SpeedCall}
    → tick_hub i s ≡ ticked s' st calls
    → st.target_percent < 100
    → IsCool i.now i.sample s' st.target_percent
tick_hub_below_full i s {s'} {st} e h =
    let (state, status, posted) = tick_hub-eq-ticked i s e in
    let percent : (hub_drive i s).duty ≡ st.target_percent =
      sym (make_status-target_percent i (hub_target i s) (hub_drive i s))
      ∙ ap (λ x. x.target_percent) status in
    subst (λ x. IsCool i.now i.sample x st.target_percent) state
      (subst (λ d. IsCool i.now i.sample (hub_drive i s).state d) percent
        (drive_below_full i (hub_target i s) (hub_connected i s).0 (rw percent h)))

-- A tick that ends reports a target below 100 percent only if it read a sample under 70 degrees and
-- under 10 percent of utilization, and in the state that it leaves neither the busy hold nor the
-- reconnection hold is running, and the target is the duty of a lease that has not expired, or
-- there is no lease, automatic control is on and the target is the temperature curve's.
pub tick_below_full :
    (i : TickInput) (s : Controller) {s' : Controller} {st : Status} {calls : List SpeedCall}
    → tick i s ≡ ticked s' st calls
    → st.target_percent < 100
    → IsCool i.now i.sample s' st.target_percent
tick_below_full i s e h = let (s₁, _, e₁) = tick-eq-ticked i s e in tick_hub_below_full i s₁ e₁ h
