-- ===== src/Logs/Tests.antt =====
-- pocisys-hash-monitor/services/pool_logs.py: concrete histories, and the theorems applied to them.
use gauge_umbrel_community.Prelude.{
  ◌*◌, ◌/◌, is_prefix, ℕ, ◌≤◌, ◌≡◌, refl, true, false, Bool, [], ◌∷◌, ◌++◌, none, some, arith, Text,
  codes, text_eq, strip, is_empty, length, take, map, subst, ap, get_or,
}
use gauge_umbrel_community.Logs.Dict.{lookup, member, insert, add_keys}
use gauge_umbrel_community.Logs.State.{
  RawShare, Share, PoolConfig, PoolMode, LogState, absent, number,
}
use gauge_umbrel_community.Logs.Stamp.{stamp}
use gauge_umbrel_community.Logs.Shares.{normalize_share}
use gauge_umbrel_community.Logs.History.{
  fresh, shares_of, saved_keys, save_share_history, load_share_history, clear_share_history,
  raw_share,
}
use gauge_umbrel_community.Logs.Merge.{merge_shares}
use gauge_umbrel_community.Logs.Poll.{PortReply, poll_public_pool}
use gauge_umbrel_community.Logs.Bests.{IsLog}
use gauge_umbrel_community.Logs.Saved.{IsStored}
use gauge_umbrel_community.Logs.Restored.{IsStorable, IsSame}
use gauge_umbrel_community.Logs.Reloaded.{load_share_history-save}
use gauge_umbrel_community.Logs.Reached.{Reached-IsLog, started, polled}
use gauge_umbrel_community.Logs.Reset.{IsEmpty, merge_shares-cleared}

abbrev print_share : ℕ → Text → ℕ → Text
print_share when worker difficulty = when ∷ worker ++ difficulty ∷ []

abbrev pool : PoolConfig
pool = record {
  key = codes "p";
  enabled = true;
  mode = PoolMode.public_pool_api;
  has_url = true;
  bitcoin_address = codes "a";
  log_path = [];
}

abbrev raw : RawShare
raw = record {
  difficulty = number 7;
  share_difficulty = absent;
  diff = absent;
  when = 1000000;
  worker = codes "w";
  client_name = [];
  miner = [];
  header_hash = codes "aa";
  camel_header_hash = [];
  id = [];
}

abbrev share : Share
share = record {
  id = codes "p:aa";
  time_ms = 1000;
  timestamp_ms = 1000;
  worker = codes "w";
  difficulty = 7;
}

normalized : normalize_share print_share (codes "p") (some raw) ≡ some share
unfolding normalize_share is_prefix stamp
normalized = refl

abbrev state : LogState
state = record (fresh (pool ∷ []) true none) {
  share_history = (codes "p", share ∷ []) ∷ [];
  all_time = record { best = (codes "p", 7) ∷ []; worker = (codes "p", codes "w") ∷ [] };
}

merged :
    (shares_of
      (codes "p")
      (merge_shares print_share (codes "p") (some raw ∷ []) (fresh (pool ∷ []) true none)))
    ≡ share ∷ []
unfolding merge_shares shares_of lookup normalize_share fresh save_share_history insert text_eq
    is_prefix stamp
merged = refl

-- The text of this time is cut to the millisecond, and an earlier one is read of it.
cut_by_text :
    (stamp 1086934724837746 ≡ 1086934724837)
    × (stamp (1086934724837746 / 1000 * 1000) ≡ 1086934724836)
unfolding stamp
cut_by_text = (refl, refl)

share-IsStored : IsStored (codes "p") share
unfolding is_prefix stamp
share-IsStored = record {
  positive = omega arith;
  named = refl;
  short_worker = omega arith;
  short_id = omega arith;
  prefixed = refl;
  timed = refl;
}

worker_kept :
    (w : Text)
    → lookup (codes "p") state.all_time.worker ≡ some w
    → (take 128 (strip w) ≡ w) × (is_empty w ≡ false)
unfolding lookup strip text_eq fresh
worker_kept w h =
    subst (λ v. (take 128 (strip v) ≡ v) × (is_empty v ≡ false)) (ap (get_or []) h) (refl, refl)

few_keys : length (saved_keys state) ≤ 100
unfolding saved_keys fresh add_keys text_eq
few_keys = omega arith

state-IsStorable : IsStorable (codes "p") state
unfolding shares_of lookup fresh text_eq
state-IsStorable = record {
  shares = (share-IsStored, tt);
  few = omega arith;
  worker = worker_kept;
  reset = λ r h. ground arith;
}

load_share_history-save_example :
    IsSame
      (codes "p")
      state
      (load_share_history print_share (λ p. 100) (fresh [] true (save_share_history state).file))
unfolding fresh
load_share_history-save_example =
    load_share_history-save print_share (λ p. 100) state [] (codes "p") refl few_keys (omega arith)
      state-IsStorable

abbrev reply : PortReply
reply = record {
  is_port = true;
  blocks = [];
  accepted_shares = some raw ∷ [];
  port_workers = [];
  shares_api = [];
  feed_available = true;
  client = none;
  has_rate = true;
}

abbrev no_rule : ℕ → Text → Bool
no_rule rule text = false

Reached-IsLog_example :
    IsLog (poll_public_pool print_share pool [] (some reply) (fresh (pool ∷ []) true none))
Reached-IsLog_example =
    Reached-IsLog print_share no_rule _
      (polled pool [] (some reply) (fresh (pool ∷ []) true none) (started (pool ∷ []) true))

active : member (codes "p") (map (λ p. p.key) state.pools) ≡ true
unfolding member text_eq fresh
active = refl

merge_shares-cleared_example :
    IsEmpty
      (codes "p")
      (merge_shares print_share (codes "p") (some raw ∷ none ∷ []) (clear_share_history 2000 state))
unfolding stamp
merge_shares-cleared_example =
    merge_shares-cleared print_share (codes "p") 2000 (some raw ∷ none ∷ []) state active
      (omega arith, (tt, tt))

-- A share without a fingerprint, of a worker with a long name, has another name after it is saved
-- and loaded: the name that is printed for it is cut at 128 characters.
abbrev long_name : Text
long_name =
    codes
      "aaaaaaaaaaaaaaaaaaaaaaaaaaaaaaaaaaaaaaaaaaaaaaaaaaaaaaaaaaaaaaaaaaaaaaaaaaaaaaaaaaaaaaaaaaaaaaaaaaaaaaaaaaaaaaaaaaaaaaaaaaaaaaaa"

abbrev long_share : Share
long_share = record share { id = codes "p:" ++ print_share 1000 long_name 7; worker = long_name }

long_normalized :
    normalize_share print_share
      (codes "p")
      (some (record raw { worker = long_name; header_hash = [] }))
    ≡ some long_share
unfolding normalize_share is_prefix stamp
long_normalized = refl

long_reloaded :
    normalize_share print_share (codes "p") (some (raw_share long_share))
    ≡ some (record long_share { id = take 128 long_share.id })
unfolding normalize_share raw_share is_prefix stamp
long_reloaded = refl
