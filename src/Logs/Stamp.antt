-- ===== src/Logs/Stamp.antt =====
-- pocisys-hash-monitor/services/pool_logs.py: `int(when.timestamp() * 1000)`, whose quotient and
-- product are doubles.
use gauge_umbrel_community.Prelude.{
  ℕ, zero, suc, ◌+◌, ◌*◌, ◌/◌, ◌%◌, ◌^◌, ◌==◌, ◌&&◌, ◌||◌, ltb, if◌then◌else◌,
}

-- The greatest power of 2, of at most `k`, by which a fraction below 2 ^ 53 stays below it.
unfoldable pub exponent : ℕ → ℕ → ℕ → ℕ
exponent zero n d = 0
exponent (suc k) n d =
    let rest = exponent k n d in if ltb (n * 2 ^ suc k) (d * 2 ^ 53) then suc k else rest

-- The whole number next to a fraction, the even one of two.
unfoldable pub nearest : ℕ → ℕ → ℕ
nearest n d =
    let q = n / d in
    let twice = 2 * (n % d) in if ltb d twice || twice == d && q % 2 == 1 then q + 1 else q

-- `int(when.timestamp() * 1000)`, of a time in microseconds: the quotient and the product have 53
-- bits.
unfoldable pub stamp : ℕ → ℕ
unfolding exponent nearest
stamp us =
    let k = exponent 80 us 1000000 in
    let seconds = nearest (us * 2 ^ k) 1000000 in
    let j = exponent 80 (seconds * 1000) (2 ^ k) in nearest (seconds * 1000 * 2 ^ j) (2 ^ k) / 2 ^ j
