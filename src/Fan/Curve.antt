-- ===== src/Fan/Curve.antt =====
-- pocisys-gpu-runtime/fan_controller.py, `temperature_duty`. Temperatures are in thousandths of a
-- degree Celsius and duties in percent, so that the division is exact and only `round` rounds.
pub mod Bounds
use gauge_umbrel_community.Prelude.{
  ℕ, ◌+◌, ◌-◌, ◌*◌, ◌/◌, ◌%◌, List, [], ◌∷◌, ◌&&◌, ltb, leb, ◌==◌, if◌then◌else◌,
}

-- Python's `round` of the fraction `n / d`: to the nearest integer, a tie to the even one.
unfoldable pub round_ratio : ℕ → ℕ → ℕ
round_ratio n d =
    let q = n / d in
    let r = n % d in
    if ltb (2 * r) d then q else if ltb d (2 * r) then q + 1 else if q % 2 == 0 then q else q + 1

-- A point of the curve: a temperature and its duty.
pub record Point : Type 0 where
  pub temp : ℕ
  pub duty : ℕ

abbrev pub point : ℕ → ℕ → Point
point t d = record { temp = t; duty = d }

-- `low_duty + (t - low_temp) / (high_temp - low_temp) * (high_duty - low_duty)`, rounded.
unfoldable pub interpolate : Point → Point → ℕ → ℕ
interpolate low high t =
    round_ratio (low.duty * (high.temp - low.temp) + (t - low.temp) * (high.duty - low.duty))
      (high.temp - low.temp)

-- The loop over `zip(points, points[1:])`; past the last pair the function returns 100.
unfoldable pub search_segments : Point → List Point → ℕ → ℕ
unfolding interpolate
search_segments low [] t = 100
search_segments low (high ∷ rest) t =
    let next = search_segments high rest t in
    if leb low.temp t && leb t high.temp then interpolate low high t else next

abbrev pub first_point : Point
first_point = point 45000 40

abbrev pub last_point : Point
last_point = point 70000 100

abbrev pub later_points : List Point
later_points = point 50000 50 ∷ point 55000 60 ∷ point 60000 75 ∷ point 65000 90 ∷ last_point ∷ []

unfoldable pub temperature_duty : ℕ → ℕ
unfolding search_segments
temperature_duty t =
    if leb t first_point.temp
    then first_point.duty
    else if leb last_point.temp t
    then last_point.duty
    else search_segments first_point later_points t
