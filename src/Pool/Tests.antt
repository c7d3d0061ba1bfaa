-- ===== src/Pool/Tests.antt =====
-- pocisys-public-pool-port/app: concrete shares and blocks, and the theorems applied to them.
use gauge_umbrel_community.Prelude.{
  ℕ, ◌+◌, ◌*◌, ◌^◌, ◌≤◌, ◌≡◌, ◌⊎◌, refl, true, false, [], ◌∷◌, none, some, arith, Text, codes,
  text_eq, strip,
}
use gauge_umbrel_community.Pool.Bytes.{Bytes, from_hex, to_hex, hex_value, little_endian}
use gauge_umbrel_community.Pool.Proof.{
  compact_target, verify_proof, Verdict, BlockStatus, Confirmations, judge,
}
use gauge_umbrel_community.Pool.Store.{
  Share, Store, find_status, store_candidate, is_known_hash, accepted_share,
}
use gauge_umbrel_community.Pool.Monitor.{
  BlockRow, RpcReply, chain_block, verify_block, ShareReply, accept_share, candidate_row,
}
use gauge_umbrel_community.Pool.Target.{IsTarget, compact_target-IsTarget}
use gauge_umbrel_community.Pool.Shares.{IsKept, count, accepted_share-IsKept}
use gauge_umbrel_community.Pool.Newest.{accepted_share_newest}
use gauge_umbrel_community.Pool.Blocks.{IsWork, verify_block-IsWork}

abbrev first_share : Share
first_share = record {
  received_at = 1000;
  pool = codes "pool";
  worker = codes "w";
  address = [];
  user_agent = [];
  difficulty = 5;
  header_hash = codes "aa";
}

abbrev second_share : Share
second_share = record first_share { received_at = 2000; header_hash = codes "bb" }

abbrev store : Store
store = record {
  snapshots = [];
  candidates = [];
  events = [];
  accepted_shares = record { id = 1; share = first_share } ∷ [];
}

count_bounded : (pool : Text) → count pool store.accepted_shares ≤ 10
count_bounded pool = ground arith

store-IsKept : IsKept store.accepted_shares
unfolding is_known_hash
store-IsKept = record { keyed = (tt, refl, tt); bounded = count_bounded }

accepted_share-IsKept_example : IsKept (accepted_share second_share store).1.accepted_shares
accepted_share-IsKept_example = accepted_share-IsKept second_share store store-IsKept

new_hash : is_known_hash (codes "bb") store.accepted_shares ≡ false
unfolding is_known_hash text_eq
new_hash = refl

accepted_share_newest_example :
    ((accepted_share second_share store).0 ≡ true)
    × (is_known_hash (codes "bb") (accepted_share second_share store).1.accepted_shares ≡ true)
accepted_share_newest_example = accepted_share_newest second_share store new_hash (omega arith)

abbrev block : BlockRow
block = record {
  id = 7;
  height = 900;
  miner_address = codes "a";
  worker = codes "w";
  session_id = codes "s";
  block_data =
      codes
        "000000000000000000000000000000000000000000000000000000000000000000000000000000000000000000000000000000000000000000000000000000000000000000000000ffff001d0000000001";
  created_at = none;
}

-- A hash function that answers the byte 1.
abbrev one_hash : Bytes → Bytes
one_hash bs = 1 ∷ []

abbrev verdict : Verdict
verdict = record {
  hash = codes "01";
  bits = 486604799;
  target = 65535 * 2 ^ 208;
  proof_valid = true;
}

verified : verify_proof one_hash block.block_data ≡ some verdict
unfolding verify_proof from_hex hex_value judge compact_target little_endian to_hex
verified = refl

abbrev node : Text → RpcReply
node hash = chain_block (Confirmations.blocks 3) none

verify_block-IsWork_example :
    (find_status 7 (verify_block one_hash 50 node block store).candidates
      ≡ some BlockStatus.invalid)
    ⊎ IsWork one_hash block.block_data verdict
verify_block-IsWork_example = verify_block-IsWork one_hash 50 node block store verdict verified

confirming :
    find_status 7 (verify_block one_hash 50 node block store).candidates
    ≡ some BlockStatus.confirming
unfolding verify_block find_status verify_proof from_hex hex_value judge compact_target
    little_endian store_candidate candidate_row
confirming = refl

compact_target-IsTarget_example :
    (target : ℕ) × (compact_target (29 * 2 ^ 24 + 65535) ≡ some target) × IsTarget 65535 29 target
compact_target-IsTarget_example = compact_target-IsTarget 29 65535 (omega arith)

-- A header of 160 characters with two blanks inside stands for 79 bytes, and is accepted.
short_header :
    (accept_share one_hash 5
      (codes "pool")
      (record {
        header =
            codes
              "00000000000000000000000000000000000000000000000000000000000000000000000000000000  000000000000000000000000000000000000000000000000000000000000000000000000000000";
        external_pool_name = [];
        worker = [];
        address = [];
        user_agent = [];
      })
      store).0
    ≡ ShareReply.accepted true
unfolding accept_share strip from_hex hex_value little_endian text_eq to_hex
short_header = refl
