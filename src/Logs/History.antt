-- ===== src/Logs/History.antt =====
-- pocisys-hash-monitor/services/pool_logs.py: `_load_share_history`, `_save_share_history`,
-- `reconfigure` and `clear_share_history`.
use gauge_umbrel_community.Prelude.{
  ◌*◌, ℕ, Bool, List, [], ◌∷◌, Option, none, some, Text, is_empty, strip, ltb, if◌then◌else◌, take,
  map, get_or, filter, not, ◌||◌,
}
use gauge_umbrel_community.Logs.Dict.{Dict, lookup, insert, restrict, add_keys}
use gauge_umbrel_community.Logs.State.{
  RawNumber, absent, number, RawShare, Share, PoolConfig, Bests, SavedPool, Payload, LogState,
}
use gauge_umbrel_community.Logs.Shares.{normalize_share, read_difficulty}

-- A share in the file, as `_normalize_share` reads it.
unfoldable pub raw_share : Share → RawShare
raw_share x = record {
  difficulty = number x.difficulty;
  share_difficulty = absent;
  diff = absent;
  when = x.time_ms * 1000;
  worker = x.worker;
  client_name = [];
  miner = [];
  header_hash = [];
  camel_header_hash = [];
  id = x.id;
}

unfoldable pub saved_number : Option ℕ → RawNumber
saved_number none = absent
saved_number (some n) = number n

-- `self.share_history.get(key, ())`
unfoldable pub shares_of : Text → LogState → List Share
shares_of key s = get_or [] (lookup key s.share_history)

unfoldable pub saved_pool : LogState → Text → SavedPool
unfolding raw_share saved_number shares_of
saved_pool s key = record {
  shares = map (λ x. some (raw_share x)) (take 10 (shares_of key s));
  all_time_best = saved_number (lookup key s.all_time.best);
  all_time_best_worker = get_or [] (lookup key s.all_time.worker);
  reset_after_ms = get_or 0 (lookup key s.reset_after);
}

unfoldable pub saved_keys : LogState → List Text
saved_keys s =
    add_keys s.share_history
      (add_keys s.all_time.best (add_keys s.all_time.worker (add_keys s.reset_after [])))

unfoldable pub payload : LogState → Payload
unfolding saved_pool saved_keys
payload s = map (λ key. (key, saved_pool s key)) (saved_keys s)

-- `_save_share_history`
unfoldable pub save_share_history : LogState → LogState
unfolding payload
save_share_history s = if s.has_path then record s { file = some (payload s) } else s

unfoldable pub load_best : Text → Option ℕ → Dict ℕ → Dict ℕ
load_best key none d = d
load_best key (some n) d = insert key n d

unfoldable pub load_worker : Text → Text → Dict Text → Dict Text
load_worker key w d = if is_empty w then d else insert key w d

unfoldable pub load_reset : Text → ℕ → Dict ℕ → Dict ℕ
load_reset key r d = if ltb 0 r then insert key r d else d

-- A service without a history: `__init__` before it loads the file.
unfoldable pub fresh : List PoolConfig → Bool → Option Payload → LogState
fresh pools has_path file = record {
  pools = pools;
  has_path = has_path;
  file = file;
  events = [];
  notified = [];
  positions = [];
  latest = [];
  seen_blocks = [];
  share_history = [];
  all_time = record { best = []; worker = [] };
  session = record { best = []; worker = [] };
  reset_after = [];
}

abbrev keep_share : Option Share → List Share → List Share
keep_share none xs = xs
keep_share (some x) xs = x ∷ xs

module _ (print_share : ℕ → Text → ℕ → Text) where
  -- The shares of a list that `_normalize_share` can read.
  unfoldable pub normalize_shares : Text → List (Option RawShare) → List Share
  normalize_shares key [] = []
  normalize_shares key (r ∷ rs) =
      keep_share (normalize_share print_share key r) (normalize_shares key rs)

  unfoldable pub load_pool : Text → SavedPool → LogState → LogState
  unfolding normalize_shares load_best load_worker load_reset read_difficulty
  load_pool key p s = record s {
    share_history = insert key (normalize_shares key (take 10 p.shares)) s.share_history;
    all_time = record {
      best = load_best key (read_difficulty p.all_time_best) s.all_time.best;
      worker = load_worker key (take 128 (strip p.all_time_best_worker)) s.all_time.worker;
    };
    reset_after = load_reset key p.reset_after_ms s.reset_after;
  }

  unfoldable pub load_pools : Payload → LogState → LogState
  load_pools [] s = s
  load_pools ((key, p) ∷ rest) s = load_pools rest (load_pool key p s)

  -- `_load_share_history`: a file of more than 256 KiB is not read. `size` is how many bytes it has.
  unfoldable pub load_share_history : (Payload → ℕ) → LogState → LogState
  load_share_history size s = elim s.file [
    | none ↦ s
    | some p ↦ if not s.has_path || ltb 262144 (size p) then s else load_pools (take 100 p) s
  ]

unfoldable pub restrict_bests : List Text → Bests → Bests
restrict_bests ids b = record { best = restrict ids b.best; worker = restrict ids b.worker }

-- `active_paths`, the paths resolved.
unfoldable pub log_paths : List PoolConfig → List Text
log_paths pools = map (λ p. p.log_path) (filter (λ p. not (is_empty p.log_path)) pools)

-- What is left of the dictionaries for these keys and log files.
unfoldable pub restrict_log : List Text → List Text → LogState → LogState
unfolding restrict_bests
restrict_log ids paths s = record s {
  positions = restrict paths s.positions;
  latest = restrict ids s.latest;
  seen_blocks = restrict ids s.seen_blocks;
  share_history = restrict ids s.share_history;
  all_time = restrict_bests ids s.all_time;
  session = restrict_bests ids s.session;
  reset_after = restrict ids s.reset_after;
}

-- `reconfigure`
unfoldable pub reconfigure : List PoolConfig → LogState → LogState
unfolding restrict_log log_paths save_share_history
reconfigure pools s =
    save_share_history
      (record (restrict_log (map (λ p. p.key) pools) (log_paths pools) s) { pools = pools })

unfoldable pub reset_keys : ℕ → List PoolConfig → Dict ℕ
reset_keys now [] = []
reset_keys now (p ∷ ps) = insert p.key now (reset_keys now ps)

-- `clear_share_history`
unfoldable pub clear_share_history : ℕ → LogState → LogState
unfolding reset_keys save_share_history
clear_share_history now s = save_share_history (record s {
  share_history = [];
  all_time = record { best = []; worker = [] };
  session = record { best = []; worker = [] };
  reset_after = reset_keys now s.pools;
})
