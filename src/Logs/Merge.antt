-- ===== src/Logs/Merge.antt =====
-- pocisys-hash-monitor/services/pool_logs.py: `_merge_shares`.
use gauge_umbrel_community.Prelude.{
  ℕ, Bool, true, false, not, ◌&&◌, ◌||◌, List, [], ◌∷◌, Option, none, some, Text, text_eq, is_empty,
  ltb, leb, ◌==◌, if◌then◌else◌, take, any,
}
use gauge_umbrel_community.Logs.Dict.{lookup, insert, value}
use gauge_umbrel_community.Logs.State.{RawShare, Share, Bests, LogState}
use gauge_umbrel_community.Logs.Shares.{normalize_share, sort_shares, put_share, index_shares}
use gauge_umbrel_community.Logs.History.{shares_of, save_share_history}

abbrev pub no_worker : Option Text → Bool
no_worker none = true
no_worker (some w) = is_empty w

-- Whether a share is a new best, or the first known one of the same difficulty.
unfoldable pub beats : ℕ → Option ℕ → Option Text → Bool
beats d none w = ltb 0 d
beats d (some best) w = ltb best d || d == best && no_worker w

unfoldable pub raise_best : Text → Share → Bests → Bests
unfolding beats
raise_best key x b =
    if beats x.difficulty (lookup key b.best) (lookup key b.worker)
    then record { best = insert key x.difficulty b.best; worker = insert key x.worker b.worker }
    else b

unfoldable pub has_id : Text → List Share → Bool
has_id id xs = any (λ x. text_eq id x.id) xs

-- The variables of the loop over the raw shares.
pub record Merging : Type 0 where
  pub by_id : List Share
  pub changed : Bool
  pub all_time : Bests
  pub session : Bests

unfoldable pub merge_share : Text → Share → Merging → Merging
unfolding raise_best has_id put_share
merge_share key x m = record {
  by_id = put_share x m.by_id;
  changed =
      m.changed
      || not (has_id x.id m.by_id)
      || beats x.difficulty (lookup key m.session.best) (lookup key m.session.worker)
      || beats x.difficulty (lookup key m.all_time.best) (lookup key m.all_time.worker);
  all_time = raise_best key x m.all_time;
  session = raise_best key x m.session;
}

-- A share that is not after the last reset is skipped.
unfoldable pub merge_normalized : Text → ℕ → Option Share → Merging → Merging
unfolding merge_share
merge_normalized key reset none m = m
merge_normalized key reset (some x) m = if leb x.timestamp_ms reset then m else merge_share key x m

unfoldable pub same_ids : List Share → List Share → Bool
same_ids [] [] = true
same_ids [] (_ ∷ _) = false
same_ids (_ ∷ _) [] = false
same_ids (x ∷ xs) (y ∷ ys) = text_eq x.id y.id && same_ids xs ys

unfoldable pub finish_merge : Text → LogState → Merging → LogState
unfolding same_ids sort_shares
finish_merge key s m =
    let merged : List Share = take 10 (sort_shares m.by_id) in
    let s' : LogState = record s {
      share_history = insert key merged s.share_history;
      all_time = m.all_time;
      session = m.session;
    } in
    if m.changed || not (same_ids merged (shares_of key s)) then save_share_history s' else s'

unfoldable pub begin_merge : Text → LogState → Merging
unfolding index_shares
begin_merge key s = record {
  by_id = index_shares (shares_of key s) [];
  changed = false;
  all_time = s.all_time;
  session = s.session;
}

module _ (print_share : ℕ → Text → ℕ → Text) where
  unfoldable pub merge_all : Text → ℕ → List (Option RawShare) → Merging → Merging
  unfolding merge_normalized
  merge_all key reset [] m = m
  merge_all key reset (r ∷ rs) m =
      merge_all key reset rs (merge_normalized key reset (normalize_share print_share key r) m)

  -- `_merge_shares`
  unfoldable pub merge_shares : Text → List (Option RawShare) → LogState → LogState
  unfolding merge_all finish_merge begin_merge
  merge_shares key raws s =
      finish_merge key s
        (merge_all key (value key s.reset_after) (take 100 raws) (begin_merge key s))
