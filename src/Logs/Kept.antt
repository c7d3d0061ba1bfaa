-- ===== src/Logs/Kept.antt =====
-- pocisys-hash-monitor/services/pool_logs.py: every operation keeps the bests above the shares.

use gauge_umbrel_community.Prelude.{
  ℕ, ◌≤◌, ◌≡◌, true, inl, inr, Bool-cases, List, [], ◌∷◌, Option, arith, Text, text_eq, text_eq→eq,
  ltb, leb, ◌&&◌, if◌then◌else◌, max, All-take, take, length, length-take, get_or, sym, subst,
}
use gauge_umbrel_community.Logs.Dict.{Dict, lookup, insert, value, value-insert, lookup-insert}
use gauge_umbrel_community.Logs.State.{RawShare, Share, Block, Bests, LogState, PoolEvent}
use gauge_umbrel_community.Logs.Shares.{sort_shares, sort_shares-All}
use gauge_umbrel_community.Logs.History.{shares_of}
use gauge_umbrel_community.Logs.Merge.{Merging, finish_merge, merge_shares}
use gauge_umbrel_community.Logs.Bests.{
  IsBounded, IsBounded-mono, IsLog, IsMerging, begin_merge-IsMerging, merge_all-IsMerging,
  save_share_history-IsLog, branch-IsLog,
}
use gauge_umbrel_community.Logs.Blocks.{add_event, announce, see_blocks, new_blocks, real_blocks}
use gauge_umbrel_community.Logs.Poll.{take_worker, observe_session, observe_all_time, observe_bests}

-- `d.get(k, ())`
abbrev pub kept : Text → Dict (List Share) → List Share
kept k d = get_or [] (lookup k d)

kept-insert :
    (k key : Text) (xs : List Share) (d : Dict (List Share))
    → kept k (insert key xs d) ≡ (if text_eq k key then xs else kept k d)
kept-insert k key xs d = ground (arith, lookup-insert k key xs d)

module _ (P : List Share → Type 0) where
  kept-insert-each :
      (k key : Text) (xs : List Share) (d : Dict (List Share))
      → (text_eq k key ≡ true → P xs)
      → P (kept k d)
      → P (kept k (insert key xs d))
  kept-insert-each k key xs d new old = elim (Bool-cases (text_eq k key)) [
    | inl same ↦ rw (kept-insert k key xs d) (rw same (new same))
    | inr other ↦ rw (kept-insert k key xs d) (rw other old)
  ]

merged-IsLog :
    (key : Text) (s : LogState) (m : Merging) (xs : List Share)
    → IsLog s
    → IsMerging key s.all_time.best m
    → IsBounded (value key m.all_time.best) xs
    → length xs ≤ 10
    → IsLog (record s {
      share_history = insert key xs s.share_history;
      all_time = m.all_time;
      session = m.session;
    })
unfolding shares_of
merged-IsLog key s m xs h k bounded short = record {
  below = k.below;
  bounded = λ j.
      kept-insert-each (IsBounded (value j m.all_time.best)) j key xs s.share_history
        (λ e.
          subst (λ i. IsBounded (value i m.all_time.best) xs) (sym (text_eq→eq j key e)) bounded)
        (IsBounded-mono (value j s.all_time.best) _ (shares_of j s) (k.grown j) (h.bounded j));
  short = λ j.
      kept-insert-each (λ ys. length ys ≤ 10) j key xs s.share_history (λ e. short) (h.short j);
}

finish_merge-IsLog :
    (key : Text) (s : LogState) (m : Merging)
    → IsLog s
    → IsMerging key s.all_time.best m
    → IsLog (finish_merge key s m)
unfolding finish_merge
finish_merge-IsLog key s m h k =
    let merged : List Share = take 10 (sort_shares m.by_id) in
    let t : IsLog (record s {
      share_history = insert key merged s.share_history;
      all_time = m.all_time;
      session = m.session;
    }) =
      merged-IsLog key s m merged h k
        (All-take _ 10 (sort_shares m.by_id) (sort_shares-All _ m.by_id k.bounded))
        (length-take 10 (sort_shares m.by_id)) in
    branch-IsLog _ _ _ (save_share_history-IsLog _ t) t

module _ (print_share : ℕ → Text → ℕ → Text) where
  pub merge_shares-IsLog :
      (key : Text) (raws : List (Option RawShare)) (s : LogState)
      → IsLog s
      → IsLog (merge_shares print_share key raws s)
  unfolding merge_shares
  merge_shares-IsLog key raws s h = finish_merge-IsLog key s _ h (
      merge_all-IsMerging print_share key _ s.all_time.best (take 100 raws) _
        (begin_merge-IsMerging key s h))

value-take_worker :
    (k key : Text) (session b : Bests) → value k (take_worker key session b).best ≡ value k b.best
unfolding take_worker
value-take_worker k key session b = ground arith

value-observe_session :
    (k key : Text) (n : ℕ) (name : Text) (b : Bests)
    → value k (observe_session key n name b).best
      ≡ (if text_eq k key then max (value k b.best) n else value k b.best)
unfolding observe_session
value-observe_session k key n name b = ground (arith, value-insert k key n b.best, text_eq→eq k key)

value-observe_all_time :
    (k key : Text) (session b : Bests)
    → value k (observe_all_time key session b).best
      ≡ (if text_eq k key then max (value k b.best) (value key session.best) else value k b.best)
unfolding observe_all_time
value-observe_all_time k key session b = ground (
  arith,
  value-insert k key (value key session.best) b.best,
  text_eq→eq k key,
  value-take_worker k key session b,
  value-take_worker k key session (record b { best = insert key (value key session.best) b.best }),
)

pub add_event-IsLog : (e : PoolEvent) (s : LogState) → IsLog s → IsLog (add_event e s)
unfolding add_event shares_of
add_event-IsLog e s h = record { below = h.below; bounded = h.bounded; short = h.short }

announce-IsLog :
    (key : Text) (ids : List Text) (s : LogState) → IsLog s → IsLog (announce key ids s)
unfolding announce
announce-IsLog key [] s h = h
announce-IsLog key (id ∷ ids) s h = announce-IsLog key ids _ (add_event-IsLog _ s h)

pub see_blocks-IsLog :
    (key : Text) (bs : List (Option Block)) (s : LogState) → IsLog s → IsLog (see_blocks key bs s)
unfolding see_blocks shares_of
see_blocks-IsLog key bs s h =
    let t = announce-IsLog key (new_blocks (lookup key s.seen_blocks) (real_blocks bs)) s h in
    record { below = t.below; bounded = t.bounded; short = t.short }

observed-IsLog :
    (key : Text) (n : ℕ) (name : Text) (s : LogState)
    → IsLog s
    → IsLog (record s {
      session = observe_session key n name s.session;
      all_time = observe_all_time key (observe_session key n name s.session) s.all_time;
    })
unfolding shares_of
observed-IsLog key n name s h =
    let session : Bests = observe_session key n name s.session in
    record {
      below = λ j. ground (
        arith,
        h.below j,
        value-observe_session j key n name s.session,
        value-observe_all_time j key session s.all_time,
        text_eq→eq j key,
      );
      bounded = λ j.
          IsBounded-mono (value j s.all_time.best) _ (shares_of j s)
            (ground (arith, value-observe_all_time j key session s.all_time)) (h.bounded j);
      short = h.short;
    }

pub observe_bests-IsLog :
    (key : Text) (w : ℕ) (name : Text) (c : ℕ) (s : LogState)
    → IsLog s
    → IsLog (observe_bests key w name c s)
unfolding observe_bests
observe_bests-IsLog key w name c s h =
    let t = observed-IsLog key (max w c) (if ltb 0 w && leb c w then name else []) s h in
    branch-IsLog _ _ s (branch-IsLog _ _ _ (save_share_history-IsLog _ t) t) h
