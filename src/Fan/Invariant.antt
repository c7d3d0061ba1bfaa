-- ===== src/Fan/Invariant.antt =====
-- pocisys-gpu-runtime/fan_controller.py: what holds of the controller between two ticks.
use gauge_umbrel_community.Prelude.{
  ◌&&◌, ◌||◌, leb, Bool-cases, inl, inr, is_empty, text_eq, ℕ, ◌+◌, ◌≤◌, ◌≡◌, refl, Bool, true,
  false, not, Option, none, some, List, [], ◌∷◌, arith, ltb, if◌then◌else◌, length, length-append,
  any,
}
use gauge_umbrel_community.Fan.State.{
  GpuSample, FanTarget, Reason, Calibration, Manual, Reading, Controller, Action, Command,
}
use gauge_umbrel_community.Fan.Manual.{
  calibration_order, is_calibration_duty, before, passed, gpu_is_stable, read_field,
  start_calibration, set_automatic, force_full, run_action, consume_command, finish_manual,
  update_manual_observations,
}
use gauge_umbrel_community.Fan.Select.{Selection, abort_below_full, select_lease, select_duty}
use gauge_umbrel_community.Fan.Tick.{
  TickInput, TickResult, ticked, failed, push_reading, take_sample, connect, choose_duty, send_duty,
  drive, tick_hub, unless_raised, tick,
}

-- A lease runs at one of the four duties, below full speed only as a calibration whose
-- predecessors have passed, and for at most thirty seconds.
abbrev pub LeaseIsValid : Calibration → Option Manual → Type 0
LeaseIsValid c none = Unit
LeaseIsValid c (some m) =
    (is_calibration_duty m.duty ≡ true)
    × (m.calibration ≡ false → m.duty ≡ 100)
    × (any (λ prior. not (passed c prior)) (before m.duty calibration_order) ≡ false)
    × (m.expires_at ≤ m.started_at + 30000)

pub record IsValid (s : Controller) : Type 0 where
  pub lease : LeaseIsValid s.calibration s.manual
  pub saved : s.saved_calibration ≡ s.calibration
  pub bounded : length s.gpu_temperatures ≤ 15

length-push_reading :
    (r : Reading) (xs : List Reading) → length xs ≤ 15 → length (push_reading r xs) ≤ 15
length-push_reading r [] h = omega arith
length-push_reading r (x ∷ xs) h = ground (arith, length-append xs (r ∷ []))

pub take_sample-IsValid :
    (now : ℕ) (g : Option GpuSample) (s : Controller) → IsValid s → IsValid (take_sample now g s)
unfolding take_sample
take_sample-IsValid now none s v = v
take_sample-IsValid now (some g) s v = ground (
  arith,
  length-push_reading (record { at = now; temperature = g.temperature }) s.gpu_temperatures,
)

-- A guarded update: three tests that leave the state alone, and the update behind them.
pub guarded :
    (P : Controller → Type 0) (a b c : Bool) (s t : Controller)
    → P s
    → (a ≡ false → b ≡ false → P t)
    → P (if a then s else if b then s else if c then s else t)
guarded P true b c s t p q = p
guarded P false true c s t p q = p
guarded P false false true s t p q = p
guarded P false false false s t p q = q refl refl

start_calibration-IsValid :
    (clock : ℕ) (g : Option GpuSample) (duty duration : ℕ) (s : Controller)
    → IsValid s
    → IsValid (start_calibration clock g duty duration s)
unfolding start_calibration
start_calibration-IsValid clock g duty duration s v =
    guarded IsValid
      (not (is_calibration_duty duty) || not (leb 20000 duration && leb duration 30000))
      (any (λ prior. not (passed s.calibration prior)) (before duty calibration_order))
      (ltb duty 100 && not (gpu_is_stable clock s)) s _ v
      λ a b. record {
        lease = (ground arith, λ c. ground arith, b, ground arith);
        saved = v.saved;
        bounded = v.bounded;
      }

set_automatic-IsValid : (e : Bool) (s : Controller) → IsValid s → IsValid (set_automatic e s)
unfolding set_automatic
set_automatic-IsValid e s v = record { lease = v.lease; saved = v.saved; bounded = v.bounded }

force_full-IsValid :
    (clock : ℕ) (g : Option GpuSample) (s : Controller) → IsValid s → IsValid (force_full clock g s)
unfolding force_full
force_full-IsValid clock g s v = record {
  lease = (refl, λ _. refl, refl, omega arith);
  saved = v.saved;
  bounded = v.bounded;
}

finish_manual-IsValid :
    (wall : ℕ) (ok : Bool) (r : Reason) (s : Controller)
    → IsValid s
    → IsValid (finish_manual wall ok r s)
unfolding finish_manual
finish_manual-IsValid wall ok r s v = ground arith

pub update_manual_observations-IsValid :
    (clock : ℕ) (t : FanTarget) (g : Option GpuSample) (s : Controller)
    → IsValid s
    → IsValid (update_manual_observations clock t g s)
unfolding update_manual_observations
update_manual_observations-IsValid clock t g s v = ground arith

run_action-IsValid :
    (a : Action) (clock : ℕ) (g : Option GpuSample) (d n : Option ℕ) (e : Bool) (s : Controller)
    → IsValid s
    → IsValid (run_action a clock g d n e s).0
unfolding run_action
run_action-IsValid Action.manual clock g (some d) (some n) e s v =
    start_calibration-IsValid clock g d n s v
run_action-IsValid Action.manual clock g (some d) none e s v = v
run_action-IsValid Action.manual clock g none n e s v = v
run_action-IsValid Action.automatic clock g d n e s v = set_automatic-IsValid e s v
run_action-IsValid Action.force_100 clock g d n e s v = force_full-IsValid clock g s v
run_action-IsValid Action.other clock g d n e s v = v

pub consume_command-IsValid :
    (clock : ℕ) (g : Option GpuSample) (c : Command) (s : Controller)
    → IsValid s
    → IsValid (consume_command clock g c s).0
unfolding consume_command
consume_command-IsValid clock g c s v =
    elim (Bool-cases (is_empty c.id || text_eq c.id s.last_command_id)) [
      | inl old ↦ rw old v
      | inr new ↦ rw new (
          run_action-IsValid c.action clock g (read_field 100 c.duty) (read_field 25000 c.duration)
            c.enabled (record s { last_command_id = c.id })
            (record { lease = v.lease; saved = v.saved; bounded = v.bounded }))
    ]

abort_below_full-IsValid :
    (wall : ℕ) (r : Reason) (s : Controller) → IsValid s → IsValid (abort_below_full wall r s)
unfolding abort_below_full
abort_below_full-IsValid wall r s v = ground (arith, finish_manual-IsValid wall false r s v)

select_lease-IsValid :
    (wall now : ℕ) (g : GpuSample) (s : Controller)
    → IsValid s
    → IsValid (select_lease s.manual wall now g s).state
unfolding select_lease
select_lease-IsValid wall now g s v = ground (
  arith,
  finish_manual-IsValid wall false Reason.temperature_rose s v,
  finish_manual-IsValid wall true Reason.completed s v,
  finish_manual-IsValid wall false Reason.no_rpm s v,
)

pub select_duty-IsValid :
    (wall now : ℕ) (g : Option GpuSample) (s : Controller)
    → IsValid s
    → IsValid (select_duty wall now g s).state
unfolding select_duty
select_duty-IsValid wall now none s v = v
select_duty-IsValid wall now (some g) s v = ground (
  arith,
  abort_below_full-IsValid wall Reason.temperature_reached s v,
  abort_below_full-IsValid wall Reason.utilization_reached (record s { busy_until = now + 60000 }),
  select_lease-IsValid wall now g s v,
)

choose_duty-IsValid :
    (wall now : ℕ) (t : FanTarget) (g : Option GpuSample) (s : Controller)
    → IsValid s
    → IsValid (choose_duty wall now t g s).state
unfolding choose_duty
choose_duty-IsValid wall now t g s v =
    let c = select_duty wall now g s in
    ground (
      arith,
      select_duty-IsValid wall now g s v,
      abort_below_full-IsValid wall Reason.rpm_zero c.state,
    )

pub connect-IsValid :
    (now : ℕ) (a : Bool) (t : Option FanTarget) (s : Controller)
    → IsValid s
    → IsValid (connect now a t s).0
unfolding connect
connect-IsValid now a t s v = ground arith

send_duty-IsValid :
    (now : ℕ) (a r : Bool) (c : Selection) → IsValid c.state → IsValid (send_duty now a r c).state
unfolding send_duty
send_duty-IsValid now a r c v = ground arith

drive-IsValid :
    (i : TickInput) (t : Option FanTarget) (s : Controller)
    → IsValid s
    → IsValid (drive i t s).state
unfolding drive
drive-IsValid i none s v = v
drive-IsValid i (some t) s v = send_duty-IsValid i.now i.send_accepted i.retry_accepted _ (
    choose_duty-IsValid i.wall i.now t i.sample _
      (update_manual_observations-IsValid i.observe_clock t i.sample s v))

-- The controller that a tick leaves.
abbrev pub after : TickResult → Controller
after (ticked s status calls) = s
after (failed s) = s

tick_hub-IsValid : (i : TickInput) (s : Controller) → IsValid s → IsValid (after (tick_hub i s))
unfolding tick_hub
tick_hub-IsValid i s v =
    let target = i.discover s.settings.fan_serial s.settings.fan_channel in
    drive-IsValid i target (connect i.now i.connect_accepted target s).0
      (connect-IsValid i.now i.connect_accepted target s v)

unless_raised-IsValid :
    (i : TickInput) (r : Controller × Bool)
    → IsValid r.0
    → IsValid (after (unless_raised (tick_hub i) r))
unless_raised-IsValid i (s, true) v = v
unless_raised-IsValid i (s, false) v = tick_hub-IsValid i s v

-- A tick keeps the invariant whatever it reads and however it ends, by an error too: a lease runs
-- at 100, 70, 50 or 40 percent for at most 30 seconds, one that is no calibration at 100 percent,
-- every larger duty of the order has passed its calibration, the calibration file agrees with the
-- state, and at most 15 temperatures are kept.
pub tick-IsValid : (i : TickInput) (s : Controller) → IsValid s → IsValid (after (tick i s))
unfolding tick
tick-IsValid i s v = unless_raised-IsValid i _ (
    consume_command-IsValid i.command_clock i.sample i.command _
      (take_sample-IsValid i.now i.sample s v))
