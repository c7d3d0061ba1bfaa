-- ===== src/Logs/Poll.antt =====
-- pocisys-hash-monitor/services/pool_logs.py: `_miner_address` and `_poll_public_pool`.
use gauge_umbrel_community.Prelude.{
  ℕ, Bool, true, false, not, ◌&&◌, ◌||◌, List, [], ◌∷◌, Option, none, some, Text, text_eq, is_empty,
  strip, ltb, leb, ◌==◌, if◌then◌else◌, take, all, get_or, max,
}
use gauge_umbrel_community.Logs.Dict.{lookup, insert, value}
use gauge_umbrel_community.Logs.State.{RawShare, PoolConfig, Block, Latest, Bests, LogState}
use gauge_umbrel_community.Logs.Blocks.{see_blocks}
use gauge_umbrel_community.Logs.History.{save_share_history}
use gauge_umbrel_community.Logs.Merge.{no_worker, merge_shares}

-- A worker of the pool. `best` is what `_difficulty` reads, and `has_rate` says whether its
-- hashrate is a number.
pub record PoolWorker : Type 0 where
  pub name : Text
  pub best : Option ℕ
  pub has_rate : Bool

-- What `/api/client/<address>` answers; a missing list of shares is `none`.
pub record Client : Type 0 where
  pub workers : List (Option PoolWorker)
  pub accepted_shares : Option (List (Option RawShare))
  pub best : Option ℕ

-- What `_pool_snapshot` and the later requests answer; `none` in a list is no object, and a
-- `client` that is `none` a failed request.
pub record PortReply : Type 0 where
  pub is_port : Bool
  pub blocks : List (Option Block)
  pub accepted_shares : List (Option RawShare)
  pub port_workers : List (Option PoolWorker)
  pub shares_api : List (Option RawShare)
  pub feed_available : Bool
  pub client : Option Client
  pub has_rate : Bool

-- What is left of a user before its first dot.
unfoldable pub before_dot : Text → Text
before_dot [] = []
before_dot (c ∷ s) = let rest = before_dot s in if c == 46 then [] else c ∷ rest

-- The first user of a miner's pool that is no empty text.
unfoldable pub first_user : List Text → Text
unfolding before_dot
first_user [] = []
first_user (u ∷ us) =
    let rest = first_user us in if is_empty (strip u) then rest else before_dot (strip u)

-- `_miner_address`
unfoldable pub miner_address : PoolConfig → List Text → Text
unfolding first_user
miner_address p users =
    if is_empty (strip p.bitcoin_address)
    then first_user users
    else before_dot (strip p.bitcoin_address)

abbrev client_shares : Option Client → Option (List (Option RawShare))
client_shares none = none
client_shares (some c) = c.accepted_shares

abbrev client_workers : Option Client → List (Option PoolWorker)
client_workers none = []
client_workers (some c) = c.workers

abbrev pub client_best : Option Client → Option ℕ
client_best none = none
client_best (some c) = c.best

-- The client that is asked for.
unfoldable pub asked_client : PortReply → Text → Option Client
asked_client r address = if r.is_port || is_empty address then none else r.client

unfoldable pub raw_shares : PortReply → Option Client → List (Option RawShare)
raw_shares r c =
    if r.is_port && is_empty r.accepted_shares
    then r.shares_api
    else get_or r.accepted_shares (client_shares c)

abbrev is_some {ℓ} : {A : Type ℓ} → Option A → Bool
is_some none = false
is_some (some x) = true

unfoldable pub has_feed : PortReply → Option Client → Bool
has_feed r c =
    if r.is_port
    then r.feed_available
    else not (is_empty r.accepted_shares) || is_some (client_shares c)

-- `normalized_workers`, of the first hundred.
unfoldable pub real_workers : List (Option PoolWorker) → List PoolWorker
real_workers [] = []
real_workers (none ∷ ws) = real_workers ws
real_workers (some w ∷ ws) = w ∷ real_workers ws

unfoldable pub pool_workers : PortReply → Option Client → List PoolWorker
unfolding real_workers
pool_workers r c = real_workers (take 100 (if r.is_port then r.port_workers else client_workers c))

-- `max(normalized_workers, key=…)`: the first of the best ones.
unfoldable pub best_of : PoolWorker → List PoolWorker → PoolWorker
best_of w [] = w
best_of w (v ∷ vs) =
    let kept = best_of w vs in
    let taken = best_of v vs in if ltb (get_or 0 w.best) (get_or 0 v.best) then taken else kept

unfoldable pub best_worker : List PoolWorker → ℕ × Text
unfolding best_of
best_worker [] = (0, [])
best_worker (w ∷ ws) = (get_or 0 (best_of w ws).best, take 128 (best_of w ws).name)

-- `if session_worker:` the worker of the session's best becomes that of all time.
unfoldable pub take_worker : Text → Bests → Bests → Bests
take_worker key session b =
    if no_worker (lookup key session.worker)
    then b
    else record b { worker = insert key (get_or [] (lookup key session.worker)) b.worker }

unfoldable pub observe_session : Text → ℕ → Text → Bests → Bests
observe_session key observed name b =
    if ltb (value key b.best) observed
    then record {
      best = insert key observed b.best;
      worker = if is_empty name then b.worker else insert key name b.worker;
    }
    else b

unfoldable pub observe_all_time : Text → Bests → Bests → Bests
unfolding take_worker
observe_all_time key session b =
    if ltb (value key b.best) (value key session.best)
    then take_worker key session (record b { best = insert key (value key session.best) b.best })
    else if value key session.best == value key b.best && no_worker (lookup key b.worker)
    then take_worker key session b
    else b

abbrev same_worker : Option Text → Option Text → Bool
same_worker none none = true
same_worker none (some _) = false
same_worker (some _) none = false
same_worker (some v) (some w) = text_eq v w

abbrev has_changed : Text → Bests → Bests → Bool
has_changed key old new =
    not (value key new.best == value key old.best)
    || not (same_worker (lookup key new.worker) (lookup key old.worker))

-- The best difficulties that the pool knows, of a worker and of the client, where the pool was
-- never reset.
unfoldable pub observe_bests : Text → ℕ → Text → ℕ → LogState → LogState
unfolding observe_session observe_all_time
observe_bests key worker_best name client s =
    let observed_name = if ltb 0 worker_best && leb client worker_best then name else [] in
    let session = observe_session key (max worker_best client) observed_name s.session in
    let all_time = observe_all_time key session s.all_time in
    let s' : LogState = record s { session = session; all_time = all_time } in
    if (ltb 0 worker_best || ltb 0 client) && value key s.reset_after == 0
    then if has_changed key s.all_time all_time then save_share_history s' else s'
    else s

unfoldable pub set_latest : Text → Latest → LogState → LogState
set_latest key l s = record s { latest = insert key l s.latest }

-- After the bests: a total hashrate that is no number ends the poll.
unfoldable pub finish_bests : Text → PortReply → Option Client → LogState → LogState
unfolding has_feed set_latest
finish_bests key r c s =
    if r.has_rate
    then set_latest key
        (Latest.connected r.is_port (has_feed r c)
          (if value key s.reset_after == 0 then client_best c else lookup key s.session.best))
        s
    else set_latest key Latest.failed s

-- After the shares: a worker's hashrate that is no number ends the poll.
unfoldable pub finish_poll : Text → PortReply → Option Client → LogState → LogState
unfolding observe_bests pool_workers best_worker finish_bests set_latest
finish_poll key r c s =
    if all (λ w. w.has_rate) (pool_workers r c)
    then finish_bests key r c (
        observe_bests key (best_worker (pool_workers r c)).0 (best_worker (pool_workers r c)).1
          (get_or 0 (client_best c)) s)
    else set_latest key Latest.failed s

module _ (print_share : ℕ → Text → ℕ → Text) where
  unfoldable pub poll_reply : PoolConfig → List Text → PortReply → LogState → LogState
  unfolding see_blocks raw_shares asked_client finish_poll
  poll_reply p users r s =
      let c = asked_client r (miner_address p users) in
      finish_poll p.key r c
        (merge_shares print_share p.key (raw_shares r c) (see_blocks p.key r.blocks s))

  -- `_poll_public_pool`; a reply that is `none` is a failed request.
  unfoldable pub poll_public_pool : PoolConfig → List Text → Option PortReply → LogState → LogState
  unfolding poll_reply set_latest
  poll_public_pool p users none s =
      set_latest p.key (if p.has_url then Latest.failed else Latest.missing_url) s
  poll_public_pool p users (some r) s =
      if p.has_url then poll_reply p users r s else set_latest p.key Latest.missing_url s
