-- ===== src/Pool/Store.antt =====
-- pocisys-public-pool-port/app/store.py: `Store`, a table to a list, the latest row first. Times are
-- in seconds, those of shares in milliseconds.
use gauge_umbrel_community.Prelude.{
  ℕ, ◌+◌, Bool, true, false, not, ◌&&◌, ◌||◌, List, [], ◌∷◌, Option, none, some, Text, text_eq, ltb,
  leb, ◌==◌, max, min, if◌then◌else◌, filter, any, take, map,
}
use gauge_umbrel_community.Pool.Proof.{BlockStatus, Confirmations}

pub record Snapshot : Type 0 where
  pub sampled_at : ℕ
  pub total_hashrate : ℕ
  pub total_miners : ℕ
  pub block_height : Option ℕ

-- A row of `candidates`.
pub record Candidate : Type 0 where
  pub upstream_id : ℕ
  pub height : ℕ
  pub miner_address : Text
  pub worker : Text
  pub session_id : Text
  pub block_hash : Text
  pub detected_at : Option ℕ
  pub proof_valid : Bool
  pub bits : ℕ
  pub status : BlockStatus
  pub confirmations : Confirmations
  pub coinbase_txid : Option Text
  pub last_checked : ℕ
  pub error : Option Text

pub data Level : Type 0 where
  good bad : Level

-- A row of `events`, which are all of the kind `block`; the message names the height and status.
pub record BlockEvent : Type 0 where
  pub level : Level
  pub height : ℕ
  pub status : BlockStatus
  pub block_hash : Text
  pub worker : Text

pub record Share : Type 0 where
  pub received_at : ℕ
  pub pool : Text
  pub worker : Text
  pub address : Text
  pub user_agent : Text
  pub difficulty : ℕ
  pub header_hash : Text

-- A row of `accepted_shares`.
pub record ShareRow : Type 0 where
  pub id : ℕ
  pub share : Share

pub record Store : Type 0 where
  pub snapshots : List Snapshot
  pub candidates : List Candidate
  pub events : List BlockEvent
  pub accepted_shares : List ShareRow

-- `SELECT sampled_at … ORDER BY sampled_at DESC LIMIT 1`
unfoldable pub latest_snapshot : List Snapshot → Option ℕ
latest_snapshot [] = none
latest_snapshot (x ∷ xs) =
    some (elim (latest_snapshot xs) [ none ↦ x.sampled_at | some at ↦ max x.sampled_at at ])

unfoldable pub is_recent : ℕ → Option ℕ → Bool
is_recent now none = false
is_recent now (some at) = ltb now (at + 55)

-- `snapshot`: at most one in 55 seconds, for 90 days.
unfoldable pub snapshot : ℕ → ℕ → ℕ → Option ℕ → Store → Store
unfolding is_recent
snapshot now hashrate miners height s =
    if is_recent now (latest_snapshot s.snapshots) then s else record s {
      snapshots =
          filter (λ x. leb now (x.sampled_at + 7776000))
            (record {
              sampled_at = now;
              total_hashrate = hashrate;
              total_miners = miners;
              block_height = height;
            }
              ∷ s.snapshots);
    }

-- `SELECT status FROM candidates WHERE upstream_id=?`
unfoldable pub find_status : ℕ → List Candidate → Option BlockStatus
find_status id [] = none
find_status id (x ∷ xs) =
    let rest = find_status id xs in if id == x.upstream_id then some x.status else rest

-- `ON CONFLICT(upstream_id) DO UPDATE`
unfoldable pub update_candidate : Candidate → Candidate → Candidate
update_candidate new old = record old {
  status = new.status;
  confirmations = new.confirmations;
  coinbase_txid = new.coinbase_txid;
  last_checked = new.last_checked;
  error = new.error;
  proof_valid = new.proof_valid;
}

unfoldable pub upsert : Candidate → List Candidate → List Candidate
unfolding update_candidate
upsert new [] = new ∷ []
upsert new (x ∷ xs) =
    let rest = upsert new xs in
    if new.upstream_id == x.upstream_id then update_candidate new x ∷ xs else x ∷ rest

unfoldable pub status_tag : BlockStatus → ℕ
status_tag BlockStatus.orphaned = 0
status_tag BlockStatus.candidate = 1
status_tag BlockStatus.confirming = 2
status_tag BlockStatus.confirmed = 3
status_tag BlockStatus.mature = 4
status_tag BlockStatus.invalid = 5

unfoldable pub has_changed : Option BlockStatus → BlockStatus → Bool
unfolding status_tag
has_changed none new = true
has_changed (some old) new = not (status_tag old == status_tag new)

unfoldable pub event_level : BlockStatus → Level
event_level BlockStatus.orphaned = Level.bad
event_level BlockStatus.invalid = Level.bad
event_level _ = Level.good

unfoldable pub block_event : Candidate → BlockEvent
unfolding event_level
block_event c = record {
  level = event_level c.status;
  height = c.height;
  status = c.status;
  block_hash = c.block_hash;
  worker = c.worker;
}

-- `candidate`: the row is stored, and a new status is an event.
unfoldable pub store_candidate : Candidate → Store → Store
unfolding upsert has_changed block_event
store_candidate c s = record s {
  candidates = upsert c s.candidates;
  events =
      if has_changed (find_status c.upstream_id s.candidates) c.status
      then block_event c ∷ s.events
      else s.events;
}

-- The identifier of a new row: `INTEGER PRIMARY KEY` takes one more than the highest.
unfoldable pub next_id : List ShareRow → ℕ
next_id [] = 1
next_id (x ∷ xs) = max (x.id + 1) (next_id xs)

unfoldable pub is_known_hash : Text → List ShareRow → Bool
is_known_hash h rows = any (λ x. text_eq h x.share.header_hash) rows

-- `INSERT OR IGNORE`: a known `header_hash` is ignored.
unfoldable pub insert_share : Share → List ShareRow → List ShareRow
unfolding is_known_hash next_id
insert_share x rows =
    if is_known_hash x.header_hash rows
    then rows
    else record { id = next_id rows; share = x } ∷ rows

-- `ORDER BY received_at DESC,id DESC`
unfoldable pub comes_first : ShareRow → ShareRow → Bool
comes_first x y =
    ltb y.share.received_at x.share.received_at
    || x.share.received_at == y.share.received_at && ltb y.id x.id

unfoldable pub insert_sorted : ShareRow → List ShareRow → List ShareRow
unfolding comes_first
insert_sorted x [] = x ∷ []
insert_sorted x (y ∷ ys) =
    let rest = insert_sorted x ys in if comes_first y x then y ∷ rest else x ∷ y ∷ ys

unfoldable pub sort_shares : List ShareRow → List ShareRow
unfolding insert_sorted
sort_shares [] = []
sort_shares (x ∷ xs) = insert_sorted x (sort_shares xs)

unfoldable pub in_pool : Text → ShareRow → Bool
in_pool pool x = text_eq pool x.share.pool

-- The identifiers of the ten latest shares of a pool.
unfoldable pub kept_ids : Text → List ShareRow → List ℕ
unfolding sort_shares in_pool
kept_ids pool rows = map (λ x. x.id) (take 10 (sort_shares (filter (in_pool pool) rows)))

-- `DELETE FROM accepted_shares WHERE pool=? AND id NOT IN (…)`
unfoldable pub trim_pool : Text → List ShareRow → List ShareRow
unfolding kept_ids in_pool
trim_pool pool rows =
    filter (λ x. not (in_pool pool x) || any (λ i. x.id == i) (kept_ids pool rows)) rows

-- `accepted_share`: whether the share is new, and the store.
unfoldable pub accepted_share : Share → Store → Bool × Store
unfolding insert_share trim_pool
accepted_share x s = (
  not (is_known_hash x.header_hash s.accepted_shares),
  record s { accepted_shares = trim_pool x.pool (insert_share x s.accepted_shares) },
)

-- `accepted_shares(limit)`
unfoldable pub latest_shares : ℕ → Store → List ShareRow
unfolding sort_shares
latest_shares limit s = take (max 1 (min limit 10)) (sort_shares s.accepted_shares)
