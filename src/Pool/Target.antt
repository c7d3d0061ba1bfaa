-- ===== src/Pool/Target.antt =====
-- pocisys-public-pool-port/app/verification.py: what a compact target stands for.
use native.Mathlib.Numerals.{towards_suc}
use gauge_umbrel_community.Prelude.{
  ℕ, zero, suc, ◌+◌, ◌-◌, ◌*◌, ◌/◌, ◌%◌, ◌^◌, ◌≤◌, ◌<◌, ◌≡◌, refl, false, some, none, arith, ◌∙◌,
  leb, ◌==◌, if◌then◌else◌,
}
use gauge_umbrel_community.Pool.Proof.{compact_target}

-- `target` is `coefficient * 256 ^ (exponent - 3)`, rounded down where the exponent is below 3.
abbrev pub IsTarget : ℕ → ℕ → ℕ → Type 0
IsTarget coefficient exponent target =
    (target * 2 ^ 24 ≤ coefficient * 2 ^ (8 * exponent))
    × (coefficient * 2 ^ (8 * exponent) < (target + 1) * 2 ^ 24)

pow_eight : (m n : ℕ) → n ≡ m + 8 → 2 ^ n ≡ 256 * 2 ^ m
pow_eight m n e = rw e (simp towards_suc (omega arith))

pow_three_bytes : (k : ℕ) → 2 ^ (8 * (k + 3)) ≡ 2 ^ 24 * 2 ^ (8 * k)
pow_three_bytes k = omega (
  arith,
  pow_eight (8 * k) (8 * k + 8) refl,
  pow_eight (8 * k + 8) (8 * k + 16) (omega arith),
  pow_eight (8 * k + 16) (8 * (k + 3)) (omega arith),
)

scale : (c x y : ℕ) → x ≡ 2 ^ 24 * y → c * x ≡ c * y * 2 ^ 24
scale c x y e = rw e (grind arith)

large-IsTarget : (c k e : ℕ) → e ≡ k + 3 → IsTarget c e (c * 2 ^ (8 * k))
large-IsTarget c k e h =
    rw h (omega (arith, scale c (2 ^ (8 * (k + 3))) (2 ^ (8 * k)) (pow_three_bytes k)))

large_form :
    (e k c : ℕ)
    → e ≡ k + 4
    → (if leb e 3 then some (c / 2 ^ (8 * (3 - e))) else some (c * 2 ^ (8 * (e - 3))))
      ≡ some (c * 2 ^ (8 * (k + 1)))
large_form e k c h =
    let above : leb e 3 ≡ false = ground arith in
    let rest : e - 3 ≡ k + 1 = omega arith in rw above (rw rest refl)

positive : (e c : ℕ) → c < 2 ^ 23 → ((e * 2 ^ 24 + c) / 2 ^ 23 % 2 == 1) ≡ false
positive e c h = ground arith

decoded :
    (e c : ℕ)
    → c < 2 ^ 23
    → compact_target (e * 2 ^ 24 + c)
      ≡ (if leb e 3 then some (c / 2 ^ (8 * (3 - e))) else some (c * 2 ^ (8 * (e - 3))))
unfolding compact_target
decoded e c h =
    let exponent : (e * 2 ^ 24 + c) / 2 ^ 24 ≡ e = omega arith in
    let coefficient : (e * 2 ^ 24 + c) % 2 ^ 23 ≡ c = omega arith in
    rw (positive e c h) (rw exponent (rw coefficient refl))

-- Where the sign bit is clear, `compact_target` answers the number that the exponent and the
-- coefficient of the compact form stand for, rounded down.
pub compact_target-IsTarget :
    (exponent coefficient : ℕ)
    → coefficient < 2 ^ 23
    → (target : ℕ) × (compact_target (exponent * 2 ^ 24 + coefficient) ≡ some target)
      × IsTarget coefficient exponent target
compact_target-IsTarget zero c h = (c / 2 ^ 24, decoded 0 c h, omega arith)
compact_target-IsTarget (suc zero) c h = (c / 2 ^ 16, decoded 1 c h, omega arith)
compact_target-IsTarget (suc (suc zero)) c h = (c / 2 ^ 8, decoded 2 c h, omega arith)
compact_target-IsTarget (suc (suc (suc zero))) c h = (c / 2 ^ 0, decoded 3 c h, omega arith)
compact_target-IsTarget (suc (suc (suc (suc k)))) c h = (
  c * 2 ^ (8 * (k + 1)),
  decoded _ c h ∙ large_form _ k c (omega arith),
  large-IsTarget c (k + 1) _ (omega arith),
)

-- The sign bit is refused.
pub compact_target_negative :
    (exponent coefficient : ℕ)
    → coefficient < 2 ^ 23
    → compact_target (exponent * 2 ^ 24 + 2 ^ 23 + coefficient) ≡ none
unfolding compact_target
compact_target_negative exponent coefficient h = ground arith
