-- ===== src/Logs/Bests.antt =====
-- pocisys-hash-monitor/services/pool_logs.py: the best difficulties, and the shares that are kept.
use gauge_umbrel_community.Prelude.{
  ℕ, ◌≤◌, ◌≡◌, true, false, inl, inr, Bool, Bool-cases, List, [], ◌∷◌, Option, none, some, arith,
  Text, text_eq, text_eq→eq, text_eq_refl, leb, if◌then◌else◌, max, All, length, get_or,
}
use gauge_umbrel_community.Logs.Dict.{Dict, lookup, value, value-insert}
use gauge_umbrel_community.Logs.State.{RawShare, Share, Bests, LogState}
use gauge_umbrel_community.Logs.Shares.{normalize_share, put_share-All, index_shares-All}
use gauge_umbrel_community.Logs.History.{shares_of, save_share_history}
use gauge_umbrel_community.Logs.Merge.{
  beats, raise_best, Merging, merge_share, merge_normalized, begin_merge, merge_all,
}

beats_least : (d : ℕ) (o : Option ℕ) (w : Option Text) → beats d o w ≡ true → get_or 0 o ≤ d
unfolding beats
beats_least d none w h = omega arith
beats_least d (some best) w h = ground arith

beats_most : (d : ℕ) (o : Option ℕ) (w : Option Text) → beats d o w ≡ false → d ≤ get_or 0 o
unfolding beats
beats_most d none w h = ground arith
beats_most d (some best) w h = ground arith

value-raise_best :
    (k key : Text) (x : Share) (b : Bests)
    → value k (raise_best key x b).best
      ≡ (if text_eq k key then max (value k b.best) x.difficulty else value k b.best)
unfolding raise_best
value-raise_best k key x b =
    let o : Option ℕ = lookup key b.best in
    let w : Option Text = lookup key b.worker in
    elim (Bool-cases (beats x.difficulty o w)) [
      | inl wins ↦ rw wins (
          ground (
            arith,
            beats_least x.difficulty o w wins,
            value-insert k key x.difficulty b.best,
            text_eq→eq k key,
          ))
      | inr loses ↦ rw loses (ground (arith, beats_most x.difficulty o w loses, text_eq→eq k key))
    ]

-- A dictionary of bests is nowhere above another one.
abbrev pub IsBelow : Dict ℕ → Dict ℕ → Type 0
IsBelow d e = (k : Text) → value k d ≤ value k e

-- No share of a list is better than the best.
abbrev pub IsBounded : ℕ → List Share → Type 0
IsBounded best xs = All (λ x. x.difficulty ≤ best) xs

pub IsBounded-mono : (m n : ℕ) (xs : List Share) → m ≤ n → IsBounded m xs → IsBounded n xs
IsBounded-mono m n [] h k = tt
IsBounded-mono m n (x ∷ xs) h k = (omega arith, IsBounded-mono m n xs h k.1)

-- For every pool: the session's best is at most the best of all time, of which no kept share is
-- above; and no more than ten shares are kept.
pub record IsLog (s : LogState) : Type 0 where
  pub below : IsBelow s.session.best s.all_time.best
  pub bounded : (k : Text) → IsBounded (value k s.all_time.best) (shares_of k s)
  pub short : (k : Text) → length (shares_of k s) ≤ 10

-- What the loop over the raw shares keeps.
pub record IsMerging (key : Text) (start : Dict ℕ) (m : Merging) : Type 0 where
  pub below : IsBelow m.session.best m.all_time.best
  pub grown : IsBelow start m.all_time.best
  pub bounded : IsBounded (value key m.all_time.best) m.by_id

merge_share-IsMerging :
    (key : Text) (start : Dict ℕ) (x : Share) (m : Merging)
    → IsMerging key start m
    → IsMerging key start (merge_share key x m)
unfolding merge_share
merge_share-IsMerging key start x m h = record {
  below = λ k.
      ground
        (arith, h.below k, value-raise_best k key x m.session, value-raise_best k key x m.all_time);
  grown = λ k. ground (arith, h.grown k, value-raise_best k key x m.all_time);
  bounded =
      put_share-All (λ y. y.difficulty ≤ value key (raise_best key x m.all_time).best) x m.by_id
        (ground (arith, value-raise_best key key x m.all_time, text_eq_refl key))
        (IsBounded-mono (value key m.all_time.best) _ m.by_id
          (ground (arith, value-raise_best key key x m.all_time, text_eq_refl key)) h.bounded);
}

merge_normalized-IsMerging :
    (key : Text) (reset : ℕ) (start : Dict ℕ) (o : Option Share) (m : Merging)
    → IsMerging key start m
    → IsMerging key start (merge_normalized key reset o m)
unfolding merge_normalized
merge_normalized-IsMerging key reset start none m h = h
merge_normalized-IsMerging key reset start (some x) m h =
    elim (Bool-cases (leb x.timestamp_ms reset)) [
      | inl old ↦ rw old h
      | inr new ↦ rw new (merge_share-IsMerging key start x m h)
    ]

pub begin_merge-IsMerging :
    (key : Text) (s : LogState) → IsLog s → IsMerging key s.all_time.best (begin_merge key s)
unfolding begin_merge
begin_merge-IsMerging key s h = record {
  below = h.below;
  grown = λ k. omega arith;
  bounded = index_shares-All _ (shares_of key s) [] (h.bounded key) tt;
}

pub branch-IsLog : (t : Bool) (a b : LogState) → IsLog a → IsLog b → IsLog (if t then a else b)
branch-IsLog true a b h k = h
branch-IsLog false a b h k = k

pub save_share_history-IsLog : (s : LogState) → IsLog s → IsLog (save_share_history s)
unfolding save_share_history shares_of
save_share_history-IsLog s h =
    branch-IsLog s.has_path _ s (record { below = h.below; bounded = h.bounded; short = h.short }) h

module _ (print_share : ℕ → Text → ℕ → Text) where
  pub merge_all-IsMerging :
      (key : Text) (reset : ℕ) (start : Dict ℕ) (rs : List (Option RawShare)) (m : Merging)
      → IsMerging key start m
      → IsMerging key start (merge_all print_share key reset rs m)
  unfolding merge_all
  merge_all-IsMerging key reset start [] m h = h
  merge_all-IsMerging key reset start (r ∷ rs) m h =
      merge_all-IsMerging key reset start rs _
        (merge_normalized-IsMerging key reset start (normalize_share print_share key r) m h)
