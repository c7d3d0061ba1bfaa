-- ===== src/Fan/Safety.antt =====
-- pocisys-gpu-runtime/fan_controller.py: when the fan may run below full speed, and what a status
-- tells about the hub.
use gauge_umbrel_community.Prelude.{
  ◌||◌, ℕ, ◌≤◌, ◌<◌, ◌≡◌, ◌⊎◌, inl, refl, Bool, true, false, Option, none, some, List, [], ◌∷◌,
  ◌++◌, arith, if◌then◌else◌, All, subst,
}
use gauge_umbrel_community.Fan.Curve.{temperature_duty}
use gauge_umbrel_community.Fan.State.{GpuSample, FanTarget, Manual, Controller, Mode}
use gauge_umbrel_community.Fan.Select.{select, select_manual, select_lease, select_duty}
use gauge_umbrel_community.Fan.Tick.{SpeedCall, set_speed, connect}

-- What allows a duty: a running lease of that duty, or automatic control without a lease.
abbrev pub IsAllowed : ℕ → GpuSample → Controller → ℕ → Type 0
IsAllowed now g s d =
    ((m : Manual) × (s.manual ≡ some m) × (d ≡ m.duty) × (now < m.expires_at))
    ⊎ ((s.manual ≡ none)
        × (s.settings.automatic_enabled ≡ true)
        × (d ≡ temperature_duty g.temperature))

select_manual_below_full :
    (wall now : ℕ) (g : GpuSample) (m : Manual) (s : Controller)
    → (select_manual wall now g m s).duty < 100
    → (now < m.expires_at)
      × (select_manual wall now g m s ≡ select s m.duty Mode.manual_calibration)
unfolding select_manual
select_manual_below_full wall now g m s h = ground arith

select_lease_below_full :
    (o : Option Manual) (wall now : ℕ) (g : GpuSample) (s : Controller)
    → s.manual ≡ o
    → (select_lease o wall now g s).duty < 100
    → IsAllowed now g s (select_lease o wall now g s).duty
      × ((select_lease o wall now g s).state ≡ s)
unfolding select_lease
select_lease_below_full none wall now g s e h = ground arith
select_lease_below_full (some m) wall now g s e h =
    let (early, running) = select_manual_below_full wall now g m s h in
    rw running (inl (m, e, refl, early), refl)

select_duty_reaches_lease :
    (wall now : ℕ) (g : GpuSample) (s : Controller)
    → (select_duty wall now (some g) s).duty < 100
    → (g.utilization < 10000)
      × (g.temperature < 70000)
      × (s.busy_until ≤ now)
      × (s.reconnect_until ≤ now)
      × (select_duty wall now (some g) s ≡ select_lease s.manual wall now g s)
unfolding select_duty
select_duty_reaches_lease wall now g s h = ground arith

select_duty_unsampled :
    (wall now : ℕ) (s : Controller)
    → select_duty wall now none s ≡ select s 100 Mode.invalid_gpu_telemetry
unfolding select_duty
select_duty_unsampled wall now s = refl

-- `_select_duty` answers below 100 percent only with a temperature sample under 70 degrees and a
-- utilization under 10 percent, outside the busy and the reconnection hold, and then the duty is
-- that of a lease that still runs, or without a lease that of the temperature curve in automatic
-- control; the state is then unchanged.
pub select_duty_below_full :
    (wall now : ℕ) (sample : Option GpuSample) (s : Controller)
    → (select_duty wall now sample s).duty < 100
    → (g : GpuSample) × (sample ≡ some g)
      × (g.utilization < 10000)
      × (g.temperature < 70000)
      × (s.busy_until ≤ now)
      × (s.reconnect_until ≤ now)
      × IsAllowed now g s (select_duty wall now sample s).duty
      × ((select_duty wall now sample s).state ≡ s)
select_duty_below_full wall now none s h = absurd (ground (arith, select_duty_unsampled wall now s))
select_duty_below_full wall now (some g) s h =
    let (idle, cool, free, settled, e) = select_duty_reaches_lease wall now g s h in
    let (allowed, same) =
      select_lease_below_full s.manual wall now g s refl (subst (λ c. c.duty < 100) e h) in
    (g, refl, idle, cool, free, settled, rw e allowed, rw e same)

-- The hub's own duty after a list of requests: the last one accepted.
abbrev pub hub_duty : Option ℕ → List SpeedCall → Option ℕ
hub_duty d [] = d
hub_duty d (c ∷ cs) = hub_duty (if c.accepted then some c.value else d) cs

pub hub_duty-append :
    (d : Option ℕ) (cs es : List SpeedCall) → hub_duty d (cs ++ es) ≡ hub_duty (hub_duty d cs) es
hub_duty-append d [] es = refl
hub_duty-append d (c ∷ cs) es = hub_duty-append (if c.accepted then some c.value else d) cs es

or_false : (b : Bool) → (b || false) ≡ b
or_false b = ground arith

-- The hub may apply a request that ends with an exception, such as one that times out. `losses` tells
-- of each request whether it does.
abbrev pub hub_after : List Bool → Option ℕ → List SpeedCall → Option ℕ
hub_after losses d [] = d
hub_after [] d (c ∷ cs) = hub_after [] (if c.accepted then some c.value else d) cs
hub_after (l ∷ losses) d (c ∷ cs) =
    hub_after losses (if c.accepted || l then some c.value else d) cs

-- The hub applies no request that ends with an exception.
abbrev pub IsLossless : List Bool → Type 0
IsLossless losses = All (λ l. l ≡ false) losses

pub hub_after-IsLossless :
    (losses : List Bool) (d : Option ℕ) (cs : List SpeedCall)
    → IsLossless losses
    → hub_after losses d cs ≡ hub_duty d cs
hub_after-IsLossless losses d [] h = refl
hub_after-IsLossless [] d (c ∷ cs) h =
    hub_after-IsLossless [] (if c.accepted then some c.value else d) cs tt
hub_after-IsLossless (l ∷ losses) d (c ∷ cs) h =
    rw (h.0, or_false c.accepted)
      (hub_after-IsLossless losses (if c.accepted then some c.value else d) cs h.1)

-- A posted value is never below 40 or above 100.
abbrev pub IsInRange : SpeedCall → Type 0
IsInRange c = (40 ≤ c.value) × (c.value ≤ 100)

pub set_speed-IsInRange : (d : ℕ) (a : Bool) → IsInRange (set_speed d a)
unfolding set_speed
set_speed-IsInRange d a = ground arith

pub connect-IsInRange :
    (now : ℕ) (a : Bool) (t : Option FanTarget) (s : Controller)
    → All IsInRange (connect now a t s).1
unfolding connect
connect-IsInRange now a t s =
    ground (arith, set_speed-IsInRange 100 true, set_speed-IsInRange 100 false)
