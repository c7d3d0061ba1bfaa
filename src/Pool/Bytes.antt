-- ===== src/Pool/Bytes.antt =====
-- Python's `bytes.fromhex`, `bytes.hex` and little-endian numbers, as
-- pocisys-public-pool-port/app/verification.py uses them.
use gauge_umbrel_community.Prelude.{
  ℕ, ◌+◌, ◌-◌, ◌*◌, ◌/◌, ◌%◌, ◌<◌, ◌≡◌, refl, Bool, false, ◌&&◌, ◌||◌, List, [], ◌∷◌, Option, none,
  some, arith, Text, ltb, leb, ◌==◌, if◌then◌else◌, All,
}

abbrev pub Bytes : Type 0
Bytes = List ℕ

-- The ASCII whitespace that `fromhex` skips between bytes.
unfoldable pub is_blank : ℕ → Bool
is_blank c = leb 9 c && leb c 13 || c == 32

-- The value of a hexadecimal digit.
unfoldable pub hex_value : ℕ → Option ℕ
hex_value c =
    if leb 48 c && leb c 57
    then some (c - 48)
    else if leb 97 c && leb c 102
    then some (c - 87)
    else if leb 65 c && leb c 70
    then some (c - 55)
    else none

unfoldable pub pair_value : ℕ → ℕ → Option ℕ
pair_value c d = elim (hex_value c) [
  | none ↦ none
  | some high ↦ elim (hex_value d) [ none ↦ none | some low ↦ some (16 * high + low) ]
]

abbrev pub cons_byte : Option ℕ → Option Bytes → Option Bytes
cons_byte none bs = none
cons_byte (some b) none = none
cons_byte (some b) (some bs) = some (b ∷ bs)

-- `bytes.fromhex`; `none` is its `ValueError`.
unfoldable pub from_hex : Text → Option Bytes
unfolding is_blank pair_value
from_hex [] = some []
from_hex (c ∷ []) = if is_blank c then some [] else none
from_hex (c ∷ d ∷ s) =
    let skipped = from_hex (d ∷ s) in
    let rest = from_hex s in if is_blank c then skipped else cons_byte (pair_value c d) rest

unfoldable pub hex_digit : ℕ → ℕ
hex_digit n = if ltb n 10 then 48 + n else 87 + n

-- `bytes.hex`
unfoldable pub to_hex : Bytes → Text
unfolding hex_digit
to_hex [] = []
to_hex (b ∷ bs) = hex_digit (b / 16) ∷ hex_digit (b % 16) ∷ to_hex bs

-- `int.from_bytes(…, "little")`
unfoldable pub little_endian : Bytes → ℕ
little_endian [] = 0
little_endian (b ∷ bs) = b + 256 * little_endian bs

hex_value-digit : (n : ℕ) → n < 16 → hex_value (hex_digit n) ≡ some n
unfolding hex_value hex_digit
hex_value-digit n h = ground arith

is_blank-digit : (n : ℕ) → n < 16 → is_blank (hex_digit n) ≡ false
unfolding is_blank hex_digit
is_blank-digit n h = ground arith

pair_value-digits :
    (b : ℕ) → b < 256 → pair_value (hex_digit (b / 16)) (hex_digit (b % 16)) ≡ some b
unfolding pair_value
pair_value-digits b h =
    ground (arith, hex_value-digit (b / 16) (omega arith), hex_value-digit (b % 16) (omega arith))

-- Reading back what `hex` prints.
pub from_hex-to_hex : (bs : Bytes) → All (λ b. b < 256) bs → from_hex (to_hex bs) ≡ some bs
unfolding from_hex to_hex
from_hex-to_hex [] h = refl
from_hex-to_hex (b ∷ bs) h =
    rw (is_blank-digit (b / 16) (omega arith))
      (rw (pair_value-digits b h.0) (rw (from_hex-to_hex bs h.1) refl))
