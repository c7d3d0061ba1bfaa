-- ===== src/Pool/Monitor.antt =====
-- pocisys-public-pool-port/app/main.py: `Monitor`'s verification of candidates, its poll and the
-- share callback, over an abstract SHA-256.
use gauge_umbrel_community.Prelude.{
  lower, ℕ, ◌+◌, Bool, not, ◌&&◌, ◌||◌, List, [], ◌∷◌, Option, none, some, Text, codes, is_empty,
  text_eq, strip, ltb, ◌==◌, if◌then◌else◌, take, length, get_or,
}
use gauge_umbrel_community.Pool.Bytes.{Bytes, from_hex, to_hex, little_endian}
use gauge_umbrel_community.Pool.Proof.{
  digest, Verdict, verify_proof, BlockStatus, Confirmations, confirmation_status,
}
use gauge_umbrel_community.Pool.Store.{
  Candidate, Share, Store, snapshot, store_candidate, accepted_share,
}

-- A block row of the pool's database.
pub record BlockRow : Type 0 where
  pub id : ℕ
  pub height : ℕ
  pub miner_address : Text
  pub worker : Text
  pub session_id : Text
  pub block_data : Text
  pub created_at : Option ℕ

-- What `rpc.call("getblock", …)` answers.
pub data RpcReply : Type 0 where
  rpc_error : Text → RpcReply
  chain_block : Confirmations → Option Text → RpcReply

-- A worker row's `hashRate`, 0 where it has none.
pub record Worker : Type 0 where
  pub hash_rate : ℕ

-- What a poll meets: the pool's API, the pool's database, the node, the clocks.
pub record PollInput : Type 0 where
  pub now : ℕ
  pub pool_height : Option ℕ
  pub workers : Option (List Worker)
  pub node_blocks : Option ℕ
  pub blocks : Option (List BlockRow)
  pub rpc : Text → RpcReply

-- `self.state`.
pub record PoolState : Type 0 where
  pub updated_at : ℕ
  pub workers : List Worker
  pub total_hashrate : ℕ
  pub total_miners : ℕ
  pub block_height : Option ℕ

-- The row that a verdict makes of a block; the node is asked about a valid proof only.
unfoldable pub judged_row :
    ℕ → BlockRow → Verdict → Confirmations → Option Text → Option Text → BlockStatus → Candidate
judged_row now b v confirmations txid error status = record {
  upstream_id = b.id;
  height = b.height;
  miner_address = b.miner_address;
  worker = b.worker;
  session_id = b.session_id;
  block_hash = v.hash;
  detected_at = b.created_at;
  proof_valid = v.proof_valid;
  bits = v.bits;
  status = status;
  confirmations = confirmations;
  coinbase_txid = txid;
  last_checked = now;
  error = error;
}

unfoldable pub asked_row : ℕ → BlockRow → Verdict → RpcReply → Candidate
unfolding judged_row confirmation_status
asked_row now b v (rpc_error e) =
    judged_row now b v Confirmations.unknown none (some e) BlockStatus.candidate
asked_row now b v (chain_block n txid) = judged_row now b v n txid none (confirmation_status n)

unfoldable pub candidate_row : ℕ → (Text → RpcReply) → BlockRow → Verdict → Candidate
unfolding asked_row judged_row
candidate_row now rpc b v =
    if v.proof_valid
    then asked_row now b v (rpc v.hash)
    else judged_row now b v Confirmations.unknown none none BlockStatus.invalid

abbrev pub total_rate : List Worker → ℕ
total_rate [] = 0
total_rate (w ∷ ws) = w.hash_rate + total_rate ws

-- `pool.get("blockHeight") or node.get("blocks")`: a height of 0 counts as none.
unfoldable pub first_height : Option ℕ → Option ℕ → Option ℕ
first_height none node = node
first_height (some h) node = if h == 0 then node else some h

-- The keys of a share's payload, and the name that stands for a missing pool.
pub record SharePayload : Type 0 where
  pub header : Text
  pub external_pool_name : Text
  pub worker : Text
  pub address : Text
  pub user_agent : Text

pub data ShareReply : Type 0 where
  bad_header_length bad_header invalid_target : ShareReply
  accepted : Bool → ShareReply

pub data PostReply : Type 0 where
  not_found invalid_token invalid_size bad_request : PostReply
  created : ShareReply → PostReply

-- A refused share is answered by 400, and the others by 201.
abbrev pub answer : ShareReply × Store → PostReply × Store
answer (ShareReply.accepted new, s) = (PostReply.created (ShareReply.accepted new), s)
answer (_, s) = (PostReply.bad_request, s)

-- `str(x or default)[:n]`
unfoldable pub text_or : Text → Text → ℕ → Text
text_or default t n = take n (if is_empty t then default else t)

module _ (sha256 : Bytes → Bytes) where
  -- A block whose data cannot be read is skipped.
  unfoldable pub verify_block : ℕ → (Text → RpcReply) → BlockRow → Store → Store
  verify_block now rpc b s = elim (verify_proof sha256 b.block_data) [
    | none ↦ s
    | some v ↦ store_candidate (candidate_row now rpc b v) s
  ]

  unfoldable pub verify_blocks : ℕ → (Text → RpcReply) → List BlockRow → Store → Store
  verify_blocks now rpc [] s = s
  verify_blocks now rpc (b ∷ bs) s = verify_blocks now rpc bs (verify_block now rpc b s)

  -- `verify_candidates`; `none` is an error of the database.
  unfoldable pub verify_candidates : ℕ → (Text → RpcReply) → Option (List BlockRow) → Store → Store
  verify_candidates now rpc none s = s
  verify_candidates now rpc (some bs) s = verify_blocks now rpc bs s

  unfoldable pub poll : PollInput → Store → PoolState × Store
  unfolding first_height
  poll i s =
      let workers : List Worker = get_or [] i.workers in
      let height = first_height i.pool_height i.node_blocks in
      (
        record {
          updated_at = i.now;
          workers = workers;
          total_hashrate = total_rate workers;
          total_miners = length workers;
          block_height = height;
        },
        verify_candidates i.now i.rpc i.blocks
            (snapshot i.now (total_rate workers) (length workers) height s),
      )

  -- The row of a share: the pool's default name is the configured one. `difficulty` is the number
  -- of the digest, of which the difficulty is `TRUE_DIFFICULTY_ONE` divided by it.
  unfoldable pub share_row : ℕ → Text → SharePayload → Bytes → Share
  unfolding text_or
  share_row now pool_name p d = record {
    received_at = now;
    pool = text_or pool_name p.external_pool_name 80;
    worker = text_or (codes "worker") p.worker 128;
    address = text_or [] p.address 160;
    user_agent = text_or [] p.user_agent 160;
    difficulty = little_endian d;
    header_hash = to_hex d;
  }

  unfoldable pub store_share : ℕ → Text → SharePayload → Bytes → Store → ShareReply × Store
  unfolding share_row accepted_share
  store_share now pool_name p d s =
      if little_endian d == 0
      then (ShareReply.invalid_target, s)
      else let (inserted, s') = accepted_share (share_row now pool_name p d) s in
        (ShareReply.accepted inserted, s')

  -- `accept_share` of a payload that is an object.
  unfoldable pub accept_share : ℕ → Text → SharePayload → Store → ShareReply × Store
  unfolding store_share lower
  accept_share now pool_name p s =
      let text = lower (strip p.header) in
      if not (length text == 160) then (ShareReply.bad_header_length, s) else elim (from_hex text) [
        | none ↦ (ShareReply.bad_header, s)
        | some header ↦ store_share now pool_name p (digest sha256 header) s
      ]

  -- `do_POST`: the path, the token that is expected and the one that is sent, the size, and the
  -- payload, which is `none` where the body is no JSON object.
  unfoldable pub do_post :
      Bool → Text → Text → ℕ → ℕ → Text → Option SharePayload → Store → PostReply × Store
  unfolding accept_share
  do_post is_share expected token size now pool_name payload s =
      if not is_share
      then (PostReply.not_found, s)
      else if not (is_empty expected) && not (text_eq token expected)
      then (PostReply.invalid_token, s)
      else if size == 0 || ltb 8192 size
      then (PostReply.invalid_size, s)
      else elim payload [
        | none ↦ (PostReply.bad_request, s)
        | some p ↦ answer (accept_share now pool_name p s)
      ]
