-- ===== src/Logs/Reset.antt =====
-- pocisys-hash-monitor/services/pool_logs.py: shares from before `clear_share_history`.
use gauge_umbrel_community.Prelude.{
  ℕ, ◌≤◌, ◌≡◌, refl, true, false, Bool, List, [], ◌∷◌, Option, none, some, arith, Text,
  text_eq_refl, take, map, All, All-take, if◌then◌else◌,
}
use gauge_umbrel_community.Logs.Dict.{Dict, lookup, insert, lookup-insert, member, value}
use gauge_umbrel_community.Logs.Stamp.{stamp}
use gauge_umbrel_community.Logs.State.{RawShare, PoolConfig, LogState}
use gauge_umbrel_community.Logs.Shares.{normalize_share, named_share, sort_shares, index_shares}
use gauge_umbrel_community.Logs.History.{
  shares_of, reset_keys, clear_share_history, save_share_history,
}
use gauge_umbrel_community.Logs.Merge.{
  Merging, merge_normalized, merge_all, begin_merge, finish_merge, merge_shares,
}

-- A share that is no later than a time.
abbrev pub IsOld : ℕ → Option RawShare → Type 0
IsOld now none = Unit
IsOld now (some r) = stamp r.when ≤ now

-- A pool of which no share and no best difficulty is known.
pub record IsEmpty (key : Text) (s : LogState) : Type 0 where
  pub shares : shares_of key s ≡ []
  pub all_time : lookup key s.all_time.best ≡ none
  pub session : lookup key s.session.best ≡ none

lookup-reset_keys :
    (key : Text) (now : ℕ) (pools : List PoolConfig)
    → member key (map (λ p. p.key) pools) ≡ true
    → lookup key (reset_keys now pools) ≡ some now
unfolding reset_keys member lookup
lookup-reset_keys key now [] h = absurd (ground arith)
lookup-reset_keys key now (p ∷ ps) h =
    ground (arith, lookup-reset_keys key now ps, lookup-insert key p.key now (reset_keys now ps))

module _ (print_share : ℕ → Text → ℕ → Text) (key : Text) (now : ℕ) (m : Merging) where
  old_difficulty :
      (r : RawShare) (o : Option ℕ)
      → stamp r.when ≤ now
      → merge_normalized key now
          (elim o [ none ↦ none | some d ↦ some (named_share print_share key r d) ])
          m
        ≡ m
  unfolding merge_normalized named_share
  old_difficulty r none h = refl
  old_difficulty r (some d) h = ground arith

  -- An old share is skipped, whatever its difficulty.
  old_share :
      (o : Option RawShare)
      → IsOld now o
      → merge_normalized key now (normalize_share print_share key o) m ≡ m
  unfolding merge_normalized normalize_share
  old_share none h = refl
  old_share (some r) h = old_difficulty r _ h

merge_all-old :
    (print_share : ℕ → Text → ℕ → Text) (key : Text) (now : ℕ) (rs : List (Option RawShare))
    (m : Merging)
    → All (IsOld now) rs
    → merge_all print_share key now rs m ≡ m
unfolding merge_all
merge_all-old print_share key now [] m h = refl
merge_all-old print_share key now (r ∷ rs) m h =
    rw (old_share print_share key now m r h.0) (merge_all-old print_share key now rs m h.1)

branch-IsEmpty :
    (key : Text) (t : Bool) (a b : LogState)
    → IsEmpty key a
    → IsEmpty key b
    → IsEmpty key (if t then a else b)
branch-IsEmpty key true a b h k = h
branch-IsEmpty key false a b h k = k

save-IsEmpty : (key : Text) (s : LogState) → IsEmpty key s → IsEmpty key (save_share_history s)
unfolding save_share_history shares_of
save-IsEmpty key s h =
    branch-IsEmpty key s.has_path _ s
      (record { shares = h.shares; all_time = h.all_time; session = h.session }) h

cleared-IsEmpty :
    (key : Text) (reset : Dict ℕ) (s : LogState)
    → IsEmpty key (record s {
      share_history = [];
      all_time = record { best = []; worker = [] };
      session = record { best = []; worker = [] };
      reset_after = reset;
    })
unfolding shares_of lookup
cleared-IsEmpty key reset s = record { shares = refl; all_time = refl; session = refl }

clear_share_history-IsEmpty :
    (key : Text) (now : ℕ) (s : LogState) → IsEmpty key (clear_share_history now s)
unfolding clear_share_history
clear_share_history-IsEmpty key now s =
    save-IsEmpty key _ (cleared-IsEmpty key (reset_keys now s.pools) s)

reset-save_share_history : (s : LogState) → (save_share_history s).reset_after ≡ s.reset_after
unfolding save_share_history
reset-save_share_history s = ground arith

value-clear_share_history :
    (key : Text) (now : ℕ) (s : LogState)
    → member key (map (λ p. p.key) s.pools) ≡ true
    → value key (clear_share_history now s).reset_after ≡ now
unfolding clear_share_history
value-clear_share_history key now s h =
    rw (reset-save_share_history _) (rw (lookup-reset_keys key now s.pools h) refl)

merged-IsEmpty :
    (key : Text) (s : LogState) (m : Merging)
    → m.by_id ≡ []
    → lookup key m.all_time.best ≡ none
    → lookup key m.session.best ≡ none
    → IsEmpty key (record s {
      share_history = insert key (take 10 (sort_shares m.by_id)) s.share_history;
      all_time = m.all_time;
      session = m.session;
    })
unfolding shares_of sort_shares
merged-IsEmpty key s m e a b = record {
  shares =
      rw (lookup-insert key key (take 10 (sort_shares m.by_id)) s.share_history)
        (rw (text_eq_refl key) (rw e refl));
  all_time = a;
  session = b;
}

finish_merge-IsEmpty :
    (key : Text) (s : LogState) (m : Merging)
    → m.by_id ≡ []
    → lookup key m.all_time.best ≡ none
    → lookup key m.session.best ≡ none
    → IsEmpty key (finish_merge key s m)
unfolding finish_merge
finish_merge-IsEmpty key s m e a b =
    let t = merged-IsEmpty key s m e a b in branch-IsEmpty key _ _ _ (save-IsEmpty key _ t) t

unfold_begin : (key : Text) (s : LogState) → shares_of key s ≡ [] → (begin_merge key s).by_id ≡ []
unfolding begin_merge index_shares
unfold_begin key s h = rw h refl

begin_bests :
    (key : Text) (s : LogState)
    → IsEmpty key s
    → (lookup key (begin_merge key s).all_time.best ≡ none)
      × (lookup key (begin_merge key s).session.best ≡ none)
unfolding begin_merge
begin_bests key s h = (h.all_time, h.session)

-- After `clear_share_history`, a configured pool that delivers shares from before the reset, or from
-- its millisecond, keeps an empty history: no share and no best difficulty comes back.
pub merge_shares-cleared :
    (print_share : ℕ → Text → ℕ → Text) (key : Text) (now : ℕ) (raws : List (Option RawShare))
    (s : LogState)
    → member key (map (λ p. p.key) s.pools) ≡ true
    → All (IsOld now) raws
    → IsEmpty key (merge_shares print_share key raws (clear_share_history now s))
unfolding merge_shares
merge_shares-cleared print_share key now raws s active old =
    let t = clear_share_history now s in
    let empty : IsEmpty key t = clear_share_history-IsEmpty key now s in
    let bests = begin_bests key t empty in
    rw (value-clear_share_history key now s active) (
      rw
        (merge_all-old print_share key now (take 100 raws) (begin_merge key t)
          (All-take _ 100 raws old))
        (finish_merge-IsEmpty key t (begin_merge key t) (unfold_begin key t empty.shares) bests.0
          bests.1))
