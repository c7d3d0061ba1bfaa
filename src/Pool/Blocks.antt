-- ===== src/Pool/Blocks.antt =====
-- pocisys-public-pool-port/app/store.py and main.py: the rows and the events of candidate blocks.
use mathlib.Core.List.{reverse}
use gauge_umbrel_community.Prelude.{
  ℕ, ◌≤◌, ◌<◌, ◌≡◌, ◌⊎◌, inl, inr, refl, true, false, List, [], ◌∷◌, Option, none, some, take, drop,
  arith, Text, ◌==◌, if◌then◌else◌, Bool-cases,
}
use gauge_umbrel_community.Pool.Bytes.{Bytes, little_endian, from_hex, to_hex}
use gauge_umbrel_community.Pool.Proof.{
  digest, compact_target, Verdict, verify_proof, judge, BlockStatus,
}
use gauge_umbrel_community.Pool.Store.{
  Candidate, Store, find_status, update_candidate, upsert, has_changed, block_event,
  store_candidate,
}
use gauge_umbrel_community.Pool.Monitor.{
  BlockRow, RpcReply, judged_row, candidate_row, verify_block,
}

find_status-upsert :
    (c : Candidate) (id : ℕ) (rows : List Candidate)
    → find_status id (upsert c rows)
      ≡ (if id == c.upstream_id then some c.status else find_status id rows)
unfolding find_status upsert update_candidate
find_status-upsert c id [] = refl
find_status-upsert c id (x ∷ xs) = ground (arith, find_status-upsert c id xs)

-- Storing a candidate gives its block the candidate's status and changes that of no other block;
-- and it adds one event, of this block and status, where the block is new or its status another
-- one, and no event otherwise.
pub store_candidate_lem :
    (c : Candidate) (s : Store) (id : ℕ)
    → (find_status id (store_candidate c s).candidates
        ≡ (if id == c.upstream_id then some c.status else find_status id s.candidates))
      × ((store_candidate c s).events ≡ (
          if has_changed (find_status c.upstream_id s.candidates) c.status
          then block_event c ∷ s.events
          else s.events))
unfolding store_candidate
store_candidate_lem c s id = (find_status-upsert c id s.candidates, refl)

module _ (sha256 : Bytes → Bytes) where
  -- A valid proof of work: the double hash of the first 80 bytes, read as a number, is at most the
  -- target of the compact form, which is not 0.
  pub record IsWork (block_data : Text) (v : Verdict) : Type 0 where
    pub raw : Bytes
    pub decoded : from_hex block_data ≡ some raw
    pub hashed : v.hash ≡ to_hex (reverse (digest sha256 (take 80 raw)))
    pub target : compact_target (little_endian (take 4 (drop 72 raw))) ≡ some v.target
    pub positive : 0 < v.target
    pub enough : little_endian (digest sha256 (take 80 raw)) ≤ v.target

  judge-IsWork :
      (block_data : Text) (raw : Bytes) (o : Option ℕ) (v : Verdict)
      → from_hex block_data ≡ some raw
      → compact_target (little_endian (take 4 (drop 72 raw))) ≡ o
      → judge (little_endian (take 4 (drop 72 raw))) (digest sha256 (take 80 raw)) o ≡ some v
      → v.proof_valid ≡ true
      → IsWork block_data v
  unfolding judge
  judge-IsWork block_data raw none v e c h valid = absurd (ground arith)
  judge-IsWork block_data raw (some target) v e c h valid = record {
    raw = raw;
    decoded = e;
    hashed = ground arith;
    target = ground arith;
    positive = ground arith;
    enough = ground arith;
  }

  verify_block_stores :
      (now : ℕ) (rpc : Text → RpcReply) (b : BlockRow) (s : Store) (v : Verdict)
      → verify_proof sha256 b.block_data ≡ some v
      → verify_block sha256 now rpc b s ≡ store_candidate (candidate_row now rpc b v) s
  unfolding verify_block
  verify_block_stores now rpc b s v h = ground arith

  invalid_row :
      (now : ℕ) (rpc : Text → RpcReply) (b : BlockRow) (v : Verdict)
      → v.proof_valid ≡ false
      → ((candidate_row now rpc b v).upstream_id ≡ b.id)
        × ((candidate_row now rpc b v).status ≡ BlockStatus.invalid)
  unfolding candidate_row judged_row
  invalid_row now rpc b v wrong = ground arith

  invalid_stored :
      (now : ℕ) (rpc : Text → RpcReply) (b : BlockRow) (s : Store) (v : Verdict)
      → verify_proof sha256 b.block_data ≡ some v
      → v.proof_valid ≡ false
      → find_status b.id (verify_block sha256 now rpc b s).candidates ≡ some BlockStatus.invalid
  invalid_stored now rpc b s v h wrong = rw (verify_block_stores now rpc b s v h) (
      ground (
        arith,
        invalid_row now rpc b v wrong,
        store_candidate_lem (candidate_row now rpc b v) s b.id,
      ))

  verify_proof-IsWork :
      (block_hex : Text) (raw : Option Bytes) (v : Verdict)
      → from_hex block_hex ≡ raw
      → verify_proof sha256 block_hex ≡ some v
      → v.proof_valid ≡ true
      → IsWork block_hex v
  unfolding verify_proof
  verify_proof-IsWork block_hex none v e h valid = absurd (ground arith)
  verify_proof-IsWork block_hex (some raw) v e h valid =
      judge-IsWork block_hex raw _ v e refl (ground arith) valid

  -- A block whose data can be read is stored with the status `invalid`, or its header carries a
  -- valid proof of work for the compact target that it names, and its verdict's hash is the
  -- header's.
  pub verify_block-IsWork :
      (now : ℕ) (rpc : Text → RpcReply) (b : BlockRow) (s : Store) (v : Verdict)
      → verify_proof sha256 b.block_data ≡ some v
      → (find_status b.id (verify_block sha256 now rpc b s).candidates ≡ some BlockStatus.invalid)
        ⊎ IsWork b.block_data v
  verify_block-IsWork now rpc b s v h = elim (Bool-cases v.proof_valid) [
    | inl valid ↦ inr (verify_proof-IsWork b.block_data _ v refl h valid)
    | inr wrong ↦ inl (invalid_stored now rpc b s v h wrong)
  ]
