-- ===== src/Fan/Policy.antt =====
-- pocisys-gpu-runtime/fan_controller.py: two ways in which the fan's safety policy, as
-- pocisys-gpu-runtime/README.md states it, is not kept.
use gauge_umbrel_community.Prelude.{
  ℕ, ◌+◌, ◌≤◌, ◌<◌, ◌≡◌, ◌≢◌, Bool, true, false, Option, none, some, ◌∙◌, arith,
}
use gauge_umbrel_community.Fan.Curve.{temperature_duty}
use gauge_umbrel_community.Fan.State.{GpuSample, FanTarget, Manual, Controller, Reason, Mode}
use gauge_umbrel_community.Fan.Manual.{passed, update_manual_observations}
use gauge_umbrel_community.Fan.Select.{
  Selection, select, select_lease, select_duty, abort_below_full,
}
use gauge_umbrel_community.Fan.Tick.{TickInput, choose_duty, send_duty, drive}
use gauge_umbrel_community.Fan.Failsafe.{commanded}

-- An idle GPU under 70 degrees, outside both holds.
abbrev pub IsIdle : ℕ → GpuSample → Controller → Type 0
IsIdle now g s =
    (g.utilization < 10000)
    × (g.temperature < 70000)
    × (s.busy_until ≤ now)
    × (s.reconnect_until ≤ now)

automatic_choice :
    (wall now : ℕ) (g : GpuSample) (s : Controller)
    → IsIdle now g s
    → s.manual ≡ none
    → s.settings.automatic_enabled ≡ true
    → select_duty wall now (some g) s ≡ record {
      state = s;
      duty = temperature_duty g.temperature;
      mode = Mode.automatic_temperature_curve;
    }
unfolding select_duty select_lease
automatic_choice wall now g s idle free on = ground arith

observations_without_lease :
    (clock : ℕ) (t : FanTarget) (g : Option GpuSample) (s : Controller)
    → s.manual ≡ none
    → update_manual_observations clock t g s ≡ s
unfolding update_manual_observations
observations_without_lease clock t g s free = rw free

abort_without_lease :
    (wall : ℕ) (r : Reason) (s : Controller) → s.manual ≡ none → abort_below_full wall r s ≡ s
unfolding abort_below_full
abort_without_lease wall r s free = rw free

-- Automatic control without a lease, at an idle GPU, with a fan that stands still.
module _ (wall now : ℕ) (t : FanTarget) (g : GpuSample) (s : Controller) (idle : IsIdle now g s)
    (free : s.manual ≡ none) (on : s.settings.automatic_enabled ≡ true) (still : t.rpm ≡ 0) where
  choose_after_settling :
      s.last_sent_at ≢ 0
      → s.last_sent_at + 5000 ≤ now
      → choose_duty wall now t (some g) s ≡ select s 100 Mode.rpm_failsafe
  unfolding choose_duty
  choose_after_settling sent settled =
      rw (automatic_choice wall now g s idle free on)
        (ground (arith, abort_without_lease wall Reason.rpm_zero s free))

  choose_before_settling :
      now < s.last_sent_at + 5000
      → (choose_duty wall now t (some g) s).duty ≡ temperature_duty g.temperature
  unfolding choose_duty
  choose_before_settling early = rw (automatic_choice wall now g s idle free on) (ground arith)

send_full :
    (now : ℕ) (r : Bool) (s : Controller) (m : Mode) (d : ℕ)
    → s.last_sent_duty ≡ some d
    → d ≢ 100
    → ((send_duty now true r (select s 100 m)).state ≡ commanded 100 now s)
      × ((send_duty now true r (select s 100 m)).duty ≡ 100)
      × ((send_duty now true r (select s 100 m)).mode ≡ m)
unfolding send_duty
send_full now r s m d sent other = ground arith

send_accepted_duty : (now : ℕ) (r : Bool) (c : Selection) → (send_duty now true r c).duty ≡ c.duty
unfolding send_duty
send_accepted_duty now r c = ground arith

-- Two rounds over a fan that stands still, at an idle GPU in automatic control without a lease, the
-- hub accepting every request. The first comes five seconds after the last command, which was below
-- 100 percent: it answers 100 percent, in the fail-safe mode. The second comes within five seconds
-- of the first: though the fan still stands still, it answers the temperature curve again.
pub stall_alternates :
    (i j : TickInput) (t u : FanTarget) (g h : GpuSample) (s : Controller) (d : ℕ)
    → t.rpm ≡ 0
    → u.rpm ≡ 0
    → s.manual ≡ none
    → s.settings.automatic_enabled ≡ true
    → s.last_sent_duty ≡ some d
    → d ≢ 100
    → s.last_sent_at ≢ 0
    → s.last_sent_at + 5000 ≤ i.now
    → i.sample ≡ some g
    → IsIdle i.now g s
    → i.send_accepted ≡ true
    → i.now ≤ j.now
    → j.now < i.now + 5000
    → j.sample ≡ some h
    → IsIdle j.now h s
    → j.send_accepted ≡ true
    → let first = drive i (some t) s in
      (first.duty ≡ 100)
      × (first.mode ≡ Mode.rpm_failsafe)
      × ((drive j (some u) first.state).duty ≡ temperature_duty h.temperature)
unfolding drive
stall_alternates i j t u g h s d ht hu free on sent other at settled gi idle ai _ soon hj idle' aj =
    let s₂ = commanded 100 i.now s in
    let free₂ : s₂.manual ≡ none = rw free in
    let chosen : choose_duty i.wall i.now t i.sample
          (update_manual_observations i.observe_clock t i.sample s)
        ≡ select s 100 Mode.rpm_failsafe =
      rw (observations_without_lease i.observe_clock t i.sample s free, gi)
        (choose_after_settling i.wall i.now t g s idle free on ht at settled) in
    let (state, duty, mode) = send_full i.now i.retry_accepted s Mode.rpm_failsafe d sent other in
    rw (chosen, ai, state)
      (
        duty,
        mode,
        rw (aj, observations_without_lease j.observe_clock u j.sample s₂ free₂, hj)
            (send_accepted_duty j.now j.retry_accepted (choose_duty j.wall j.now u (some h) s₂)
              ∙ choose_before_settling j.wall j.now u h s₂ idle' free₂ on hu soon),
      )

-- A calibration lease that ends, at an idle GPU that has not warmed by five degrees, with no
-- rotation seen, is recorded as failed, and automatic control stays on if it was on.
pub failed_repeat_keeps_automatic :
    (wall now : ℕ) (g : GpuSample) (m : Manual) (s : Controller) (t : ℕ)
    → IsIdle now g s
    → s.manual ≡ some m
    → m.calibration ≡ true
    → m.start_temperature ≡ some t
    → g.temperature < t + 5000
    → m.expires_at ≤ now
    → m.min_rpm ≡ none
    → s.settings.automatic_enabled ≡ true
    → let s' = (select_duty wall now (some g) s).state in
      (passed s'.calibration m.duty ≡ false) × (s'.settings.automatic_enabled ≡ true)
unfolding select_duty select_lease
failed_repeat_keeps_automatic wall now g m s t idle lease calibrated start cool over unseen on =
    ground arith
