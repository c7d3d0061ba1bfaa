-- ===== src/Fan/Hold/Trace.antt =====
-- pocisys-gpu-runtime/fan_controller.py: the full-speed minute over successive rounds of `run`.
use gauge_umbrel_community.Prelude.{
  ℕ, ◌+◌, ◌≤◌, ◌<◌, ◌≡◌, refl, Bool, true, false, Option, none, some, List, [], ◌∷◌, arith,
  if◌then◌else◌, subst, sym, ap, ◌∙◌, All, le→leb,
}
use gauge_umbrel_community.Fan.State.{GpuSample, FanTarget, Controller}
use gauge_umbrel_community.Fan.Manual.{consume_command, update_manual_observations}
use gauge_umbrel_community.Fan.Select.{Selection}
use gauge_umbrel_community.Fan.Tick.{
  TickInput, Status, TickResult, ticked, failed, SpeedCall, choose_duty, Drive, send_duty, drive,
  make_status, take_sample, tick, run_statuses, is_target, unless_raised, tick_hub,
}
use gauge_umbrel_community.Fan.Invariant.{
  IsValid, after, connect-IsValid, update_manual_observations-IsValid, tick-IsValid,
}
use gauge_umbrel_community.Fan.Failsafe.{
  tick-eq-ticked, consumed-IsValid, tick_hub-eq-ticked, hub_target, hub_connected, hub_drive,
  tick_below_full,
}
use gauge_umbrel_community.Fan.Device.{choose_duty-bounds, make_status-percent}
use gauge_umbrel_community.Fan.Hold.{
  held, consume_command-busy_until, take_sample-busy_until, connect-busy_until, drive-busy_until,
}

-- The hub part leaves the hold alone without a target.
drive_target-busy_until :
    (i : TickInput) (target : Option FanTarget) (s : Controller)
    → (drive i target s).state.busy_until
      ≡ (if is_target target then held i.now i.sample s.busy_until else s.busy_until)
drive_target-busy_until i none s = unfold drive in refl
drive_target-busy_until i (some t) s = drive-busy_until i t s

pub consumed-busy_until :
    (i : TickInput) (s : Controller)
    → (consume_command i.command_clock i.sample i.command
        (take_sample i.now i.sample s)).0.busy_until
      ≡ s.busy_until
consumed-busy_until i s =
    consume_command-busy_until i.command_clock i.sample i.command (take_sample i.now i.sample s)
    ∙ take_sample-busy_until i.now i.sample s

online_target :
    (i : TickInput) (t : Option FanTarget) (d : Drive)
    → (make_status i t d).online ≡ true
    → is_target t ≡ true
unfolding make_status
online_target i t d h = ground arith

pub tick-busy_until :
    (i : TickInput) (s : Controller) {s' : Controller} {st : Status} {calls : List SpeedCall}
    → tick i s ≡ ticked s' st calls
    → (target : Option FanTarget) × (s'.busy_until
        ≡ (if is_target target then held i.now i.sample s.busy_until else s.busy_until))
      × (st.online ≡ true → is_target target ≡ true)
tick-busy_until i s {s'} {st} e =
    let (s₁, consumed, e₁) = tick-eq-ticked i s e in
    let (state, status, posted) = tick_hub-eq-ticked i s₁ e₁ in
    let target = hub_target i s₁ in
    let start : (hub_connected i s₁).0.busy_until ≡ s.busy_until =
      connect-busy_until i.now i.connect_accepted target s₁
      ∙ ap (λ r. r.0.busy_until) (sym consumed)
      ∙ consumed-busy_until i s in
    (
      target,
      ap (λ x. x.busy_until) (sym state)
          ∙ drive_target-busy_until i target (hub_connected i s₁).0
          ∙ ap (λ b. if is_target target then held i.now i.sample b else b) start,
      λ online. online_target i target (hub_drive i s₁) (rw status online),
    )

-- A target is a duty between 40 and 100 percent.
send_duty-bounds :
    (now : ℕ) (a r : Bool) (c : Selection)
    → 40 ≤ c.duty
    → c.duty ≤ 100
    → (40 ≤ (send_duty now a r c).duty) × ((send_duty now a r c).duty ≤ 100)
unfolding send_duty
send_duty-bounds now a r c lo hi = ground arith

drive-bounds :
    (i : TickInput) (target : Option FanTarget) (s : Controller)
    → IsValid s
    → (40 ≤ (drive i target s).duty) × ((drive i target s).duty ≤ 100)
unfolding drive
drive-bounds i none s v = omega arith
drive-bounds i (some t) s v =
    let s' = update_manual_observations i.observe_clock t i.sample s in
    let c = choose_duty i.wall i.now t i.sample s' in
    let bounds =
      choose_duty-bounds i.wall i.now t i.sample s'
        (update_manual_observations-IsValid i.observe_clock t i.sample s v) in
    send_duty-bounds i.now i.send_accepted i.retry_accepted c bounds.0 bounds.1

tick-bounds :
    (i : TickInput) (s : Controller) {s' : Controller} {st : Status} {calls : List SpeedCall}
    → IsValid s
    → tick i s ≡ ticked s' st calls
    → (40 ≤ st.target_percent) × (st.target_percent ≤ 100)
tick-bounds i s {s'} {st} v e =
    let (s₁, consumed, e₁) = tick-eq-ticked i s e in
    let (state, status, posted) = tick_hub-eq-ticked i s₁ e₁ in
    let target = hub_target i s₁ in
    let percent : (hub_drive i s₁).duty ≡ st.target_percent =
      sym (make_status-percent i target (hub_drive i s₁)) ∙ ap (λ x. x.target_percent) status in
    subst (λ d. (40 ≤ d) × (d ≤ 100)) percent
      (drive-bounds i target (hub_connected i s₁).0
        (connect-IsValid i.now i.connect_accepted target s₁ (consumed-IsValid i s consumed v)))

-- The hold lasts at least until `b`.
hold_lasts :
    (b : ℕ) (i : TickInput) (s : Controller) {s' : Controller} {st : Status}
    {calls : List SpeedCall}
    → b ≤ i.now + 60000
    → b ≤ s.busy_until
    → tick i s ≡ ticked s' st calls
    → b ≤ s'.busy_until
hold_lasts b i s {s'} near h e =
    let (target, kept, _) = tick-busy_until i s e in
    subst (λ x. b ≤ x) (sym kept) (later (is_target target) i.sample)
  where
    later :
        (found : Bool) (g : Option GpuSample)
        → b ≤ (if found then held i.now g s.busy_until else s.busy_until)
    later false g = h
    later true none = h
    later true (some g) = ground arith

full_while_held :
    (b : ℕ) (i : TickInput) (s : Controller) {s' : Controller} {st : Status}
    {calls : List SpeedCall}
    → IsValid s
    → b ≤ i.now + 60000
    → i.now < b
    → b ≤ s.busy_until
    → tick i s ≡ ticked s' st calls
    → st.target_percent ≡ 100
full_while_held b i s {s'} {st} v near early h e =
    let below : st.target_percent < 100 → ⊥ = λ low.
      let (g, _, _, _, free, _, _) = tick_below_full i s e low in
      absurd (omega (arith, hold_lasts b i s near h e)) in
    omega (arith, tick-bounds i s v e)

failed-busy_until :
    (i : TickInput) (s : Controller) {s' : Controller}
    → tick i s ≡ failed s'
    → s'.busy_until ≡ s.busy_until
unfolding tick tick_hub
failed-busy_until i s {s'} e =
    go (consume_command i.command_clock i.sample i.command (take_sample i.now i.sample s)) e
      (consumed-busy_until i s)
  where
    go :
        (r : Controller × Bool)
        → unless_raised (tick_hub i) r ≡ failed s'
        → r.0.busy_until ≡ s.busy_until
        → s'.busy_until ≡ s.busy_until
    go (s₁, true) e₁ b = cc
    go (s₁, false) e₁ b = cc

-- The rounds whose first clock reading lies in the minute that begins at `t`.
abbrev pub InMinute : ℕ → TickInput → Type 0
InMinute t i = (t ≤ i.now) × (i.now < t + 60000)

held_statuses :
    (t : ℕ) (is : List TickInput) (s : Controller)
    → IsValid s
    → t + 60000 ≤ s.busy_until
    → All (InMinute t) is
    → All (λ st. st.target_percent ≡ 100) (run_statuses is s)
unfolding run_statuses
held_statuses t [] s v h times = tt
held_statuses t (i ∷ is) s v h times = go (held_statuses t is) (tick i s) refl (tick-IsValid i s v)
  where
    go :
        ((s' : Controller)
          → IsValid s'
          → t + 60000 ≤ s'.busy_until
          → All (InMinute t) is
          → All (λ st. st.target_percent ≡ 100) (run_statuses is s'))
        → (r : TickResult) → tick i s ≡ r
        → IsValid (after r)
        → All
            (λ st. st.target_percent ≡ 100)
            (elim r [
              | ticked s' st calls ↦ st ∷ run_statuses is s'
              | failed s' ↦ run_statuses is s'
            ])
    go ih (ticked s' st calls) e v' = (
      full_while_held (t + 60000) i s v (omega arith) times.0.1 h e,
      ih s' v' (hold_lasts (t + 60000) i s (omega arith) h e) times.1,
    )
    go ih (failed s') e v' = ih s' v' (rw (failed-busy_until i s e) h) times.1

-- After a tick that reports online with a utilization of at least 10 percent, every status of the
-- following minute has the target 100 percent: whatever the later rounds read and whether or not
-- their ticks raise, as long as each reads its clock in that minute.
pub busy_minute :
    (i : TickInput) (is : List TickInput) (s : Controller) (g : GpuSample) {s' : Controller}
    {st : Status} {calls : List SpeedCall}
    → IsValid s
    → tick i s ≡ ticked s' st calls
    → st.online ≡ true
    → i.sample ≡ some g
    → 10000 ≤ g.utilization
    → All (InMinute i.now) is
    → All (λ x. x.target_percent ≡ 100) (run_statuses is s')
busy_minute i is s g {s'} v e online sampled busy times =
    let (target, kept, found) = tick-busy_until i s e in
    let minute : s'.busy_until ≡ i.now + 60000 =
      kept ∙ rw (found online, sampled, le→leb _ _ busy) in
    held_statuses i.now is s' (subst (λ r. IsValid (after r)) e (tick-IsValid i s v)) (omega arith)
      times
