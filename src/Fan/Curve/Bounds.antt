-- ===== src/Fan/Curve/Bounds.antt =====
-- The temperature curve of pocisys-gpu-runtime/fan_controller.py: its range, its accuracy and its
-- order.
use gauge_umbrel_community.Prelude.{ℕ, ◌+◌, ◌-◌, ◌*◌, ◌≤◌, ◌≡◌, refl, arith, leb, if◌then◌else◌}
use gauge_umbrel_community.Fan.Curve.{round_ratio, temperature_duty}

-- The exact curve, in units of 1/5000 of a percent: every segment is five degrees wide.
abbrev pub exact_curve : ℕ → ℕ
exact_curve t =
    if leb t 45000
    then 200000
    else if leb t 55000
    then 200000 + (t - 45000) * 10
    else if leb t 65000
    then 300000 + (t - 55000) * 15
    else if leb t 70000
    then 450000 + (t - 65000) * 10
    else 500000

exact_curve_mono : (s t : ℕ) → s ≤ t → exact_curve s ≤ exact_curve t
exact_curve_mono s t h = ground arith

exact_curve_bounds : (t : ℕ) → (200000 ≤ exact_curve t) × (exact_curve t ≤ 500000)
exact_curve_bounds t = ground arith

round_ratio_mono : (n m : ℕ) → n ≤ m → round_ratio n 5000 ≤ round_ratio m 5000
unfolding round_ratio
round_ratio_mono n m h = ground arith

round_ratio_near :
    (n : ℕ) → (5000 * round_ratio n 5000 ≤ n + 2500) × (n ≤ 5000 * round_ratio n 5000 + 2500)
unfolding round_ratio
round_ratio_near n = ground arith

low_end : round_ratio 200000 5000 ≡ 40
unfolding round_ratio
low_end = refl

high_end : round_ratio 500000 5000 ≡ 100
unfolding round_ratio
high_end = refl

-- The loop computes the exact curve, rounded.
pub temperature_duty-eq-round : (t : ℕ) → temperature_duty t ≡ round_ratio (exact_curve t) 5000
unfolding temperature_duty
temperature_duty-eq-round t = ground (arith, low_end, high_end)

-- The duty lies between 40 and 100 percent, is within half a percent of the piecewise linear curve
-- through the six points, and never falls when the temperature rises.
pub temperature_duty_curve :
    (s t : ℕ)
    → s ≤ t
    → (40 ≤ temperature_duty t)
      × (temperature_duty t ≤ 100)
      × (5000 * temperature_duty t ≤ exact_curve t + 2500)
      × (exact_curve t ≤ 5000 * temperature_duty t + 2500)
      × (temperature_duty s ≤ temperature_duty t)
temperature_duty_curve s t h =
    rw (temperature_duty-eq-round s, temperature_duty-eq-round t)
      (omega (
        arith,
        round_ratio_near (exact_curve t),
        exact_curve_bounds t,
        round_ratio_mono (exact_curve s) (exact_curve t) (exact_curve_mono s t h),
      ))
