-- ===== src/Pool/Proof.antt =====
-- pocisys-public-pool-port/app/verification.py, over an abstract SHA-256.
use gauge_umbrel_community.Prelude.{
  ℕ, ◌-◌, ◌*◌, ◌/◌, ◌%◌, ◌^◌, Bool, ◌&&◌, Option, none, some, Text, ltb, leb, ◌==◌, if◌then◌else◌,
  length, take, drop,
}
use mathlib.Core.List.{reverse}
use gauge_umbrel_community.Pool.Bytes.{Bytes, from_hex, to_hex, little_endian}

-- `compact_target`; `none` is its `ValueError`. The coefficient is `bits & 0x007FFFFF`.
unfoldable pub compact_target : ℕ → Option ℕ
compact_target bits =
    let exponent = bits / 2 ^ 24 in
    let coefficient = bits % 2 ^ 23 in
    if (bits / 2 ^ 23) % 2 == 1
    then none
    else if leb exponent 3
    then some (coefficient / 2 ^ (8 * (3 - exponent)))
    else some (coefficient * 2 ^ (8 * (exponent - 3)))

-- What `verify_proof` answers; `bits` and `target` are printed in hexadecimal there.
pub record Verdict : Type 0 where
  pub hash : Text
  pub bits : ℕ
  pub target : ℕ
  pub proof_valid : Bool

-- The verdict over the digest of a header.
unfoldable pub judge : ℕ → Bytes → Option ℕ → Option Verdict
judge bits d none = none
judge bits d (some target) = some (record {
  hash = to_hex (reverse d);
  bits = bits;
  target = target;
  proof_valid = ltb 0 target && leb (little_endian d) target;
})

module _ (sha256 : Bytes → Bytes) where
  abbrev pub digest : Bytes → Bytes
  digest raw = sha256 (sha256 raw)

  unfoldable pub block_hash : Text → Option Text
  block_hash block_hex = elim (from_hex block_hex) [
    | none ↦ none
    | some raw ↦
        if ltb (length raw) 81 then none else some (to_hex (reverse (digest (take 80 raw))))
  ]

  -- `verify_proof`; `none` is its `ValueError`.
  unfoldable pub verify_proof : Text → Option Verdict
  verify_proof block_hex = elim (from_hex block_hex) [
    | none ↦ none
    | some raw ↦
        if ltb (length raw) 81
        then none
        else let bits = little_endian (take 4 (drop 72 raw)) in
          judge bits (digest (take 80 raw)) (compact_target bits)
  ]

-- The status of a candidate block.
pub data BlockStatus : Type 0 where
  orphaned candidate confirming confirmed mature invalid : BlockStatus

-- What the node says of a block: it is on no active chain, or it has so many confirmations.
pub data Confirmations : Type 0 where
  unknown stale : Confirmations
  blocks : ℕ → Confirmations

-- `confirmation_status`; `stale` is -1.
unfoldable pub confirmation_status : Confirmations → BlockStatus
confirmation_status Confirmations.stale = BlockStatus.orphaned
confirmation_status Confirmations.unknown = BlockStatus.candidate
confirmation_status (Confirmations.blocks n) =
    if ltb n 1
    then BlockStatus.candidate
    else if ltb n 6
    then BlockStatus.confirming
    else if ltb n 100
    then BlockStatus.confirmed
    else BlockStatus.mature
