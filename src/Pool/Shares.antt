-- ===== src/Pool/Shares.antt =====
-- pocisys-public-pool-port/app/store.py: what `accepted_share` keeps.
use gauge_umbrel_community.Prelude.{
  length-filter-or, length-filter-filter, filter-filter, any-filter, All-filter, length-map, ℕ, ◌≤◌,
  ◌<◌, ◌≡◌, refl, ap, Bool, false, not, ◌||◌, List, [], ◌∷◌, arith, Text, text_eq, text_eq_refl,
  text_eq→eq, ◌==◌, filter, any, take, length, length-take, All, Bool-cases, inl, inr,
}
use gauge_umbrel_community.Pool.Store.{
  Share, ShareRow, Store, next_id, is_known_hash, insert_share, in_pool, kept_ids, trim_pool,
  sort_shares, accepted_share,
}

-- The rows' identifiers fall strictly, and the rows' header hashes are all different.
abbrev pub IsTable : List ShareRow → Type 0
IsTable [] = Unit
IsTable (x ∷ xs) =
    All (λ (y : ShareRow). y.id < x.id) xs
    × (is_known_hash x.share.header_hash xs ≡ false)
    × IsTable xs

no_older :
    (i k : ℕ) (xs : List ShareRow)
    → k ≡ i
    → All (λ y. y.id < k) xs
    → length (filter (λ y. y.id == i) xs) ≡ 0
no_older i k [] e h = refl
no_older i k (x ∷ xs) e h = ground (arith, no_older i k xs e)

one_of_id : (i : ℕ) (xs : List ShareRow) → IsTable xs → length (filter (λ y. y.id == i) xs) ≤ 1
one_of_id i [] h = omega arith
one_of_id i (x ∷ xs) h = ground (arith, no_older i x.id xs, one_of_id i xs)

none_kept : (xs : List ShareRow) → length (filter (λ y. false) xs) ≤ 0
none_kept [] = omega arith
none_kept (x ∷ xs) = none_kept xs

-- Rows of different identifiers that are among `n` ones are at most `n`.
among :
    (ids : List ℕ) (xs : List ShareRow)
    → IsTable xs
    → length (filter (λ y. any (λ i. y.id == i) ids) xs) ≤ length ids
among [] xs h = none_kept xs
among (i ∷ ids) xs h = omega (
  arith,
  one_of_id i xs h,
  among ids xs h,
  length-filter-or (λ (y : ShareRow). any (λ j. y.id == j) (i ∷ ids)) (λ y. y.id == i)
      (λ y. any (λ j. y.id == j) ids) xs (λ y. refl),
)

length-kept_ids : (pool : Text) (rows : List ShareRow) → length (kept_ids pool rows) ≤ 10
unfolding kept_ids
length-kept_ids pool rows = omega (
  arith,
  length-map (λ (x : ShareRow). x.id) (take 10 (sort_shares (filter (in_pool pool) rows))),
  length-take 10 (sort_shares (filter (in_pool pool) rows)),
)

-- The number of a pool's rows.
abbrev pub count : Text → List ShareRow → ℕ
count pool rows = length (filter (in_pool pool) rows)

count-trim_pool :
    (pool : Text) (rows : List ShareRow) → IsTable rows → count pool (trim_pool pool rows) ≤ 10
unfolding trim_pool
count-trim_pool pool rows h = omega (
  arith,
  length-kept_ids pool rows,
  among (kept_ids pool rows) rows h,
  length-filter-filter (in_pool pool)
      (λ x. not (in_pool pool x) || any (λ i. x.id == i) (kept_ids pool rows))
      (λ x. any (λ i. x.id == i) (kept_ids pool rows)) rows (λ x a b. ground arith),
)

IsTable-filter : (p : ShareRow → Bool) (xs : List ShareRow) → IsTable xs → IsTable (filter p xs)
unfolding is_known_hash
IsTable-filter p [] h = tt
IsTable-filter p (x ∷ xs) h = elim (Bool-cases (p x)) [
  | inl keep ↦ rw keep (
    All-filter (λ (y : ShareRow). y.id < x.id) p xs h.0,
    any-filter _ p xs h.1,
    IsTable-filter p xs h.2,
  )
  | inr drop ↦ rw drop (IsTable-filter p xs h.2)
]

pub below-next_id : (n : ℕ) (xs : List ShareRow) → next_id xs ≤ n → All (λ y. y.id < n) xs
unfolding next_id
below-next_id n [] h = tt
below-next_id n (x ∷ xs) h = (ground arith, below-next_id n xs (ground arith))

insert_share-IsTable :
    (x : Share) (rows : List ShareRow) → IsTable rows → IsTable (insert_share x rows)
unfolding insert_share
insert_share-IsTable x rows h = elim (Bool-cases (is_known_hash x.header_hash rows)) [
  | inl known ↦ rw known h
  | inr new ↦ rw new (below-next_id (next_id rows) rows (omega arith), new, h)
]

-- The table's keys are unique, and no pool has more than ten rows.
pub record IsKept (rows : List ShareRow) : Type 0 where
  pub keyed : IsTable rows
  pub bounded : (pool : Text) → count pool rows ≤ 10

count-trim_other :
    (pool other : Text) (rows : List ShareRow)
    → text_eq other pool ≡ false
    → count other (trim_pool pool rows) ≡ count other rows
unfolding trim_pool in_pool
count-trim_other pool other rows h = ap length (
    filter-filter (in_pool other)
      (λ x. not (in_pool pool x) || any (λ i. x.id == i) (kept_ids pool rows)) rows
      (λ x a.
        ground
          (arith, text_eq→eq other x.share.pool, text_eq→eq pool x.share.pool, text_eq_refl pool)))

count-insert_other :
    (x : Share) (other : Text) (rows : List ShareRow)
    → text_eq other x.pool ≡ false
    → count other (insert_share x rows) ≡ count other rows
unfolding insert_share in_pool
count-insert_other x other rows h = ground arith

trim_pool-IsTable :
    (pool : Text) (rows : List ShareRow) → IsTable rows → IsTable (trim_pool pool rows)
unfolding trim_pool
trim_pool-IsTable pool rows h = IsTable-filter _ rows h

count-accepted :
    (x : Share) (pool : Text) (rows : List ShareRow)
    → IsTable (insert_share x rows)
    → count pool rows ≤ 10
    → count pool (trim_pool x.pool (insert_share x rows)) ≤ 10
count-accepted x pool rows keyed h = elim (Bool-cases (text_eq pool x.pool)) [
  | inl same ↦ rw (text_eq→eq pool x.pool same) (count-trim_pool x.pool (insert_share x rows) keyed)
  | inr other ↦ omega (
    arith,
    count-trim_other x.pool pool (insert_share x rows) other,
    count-insert_other x pool rows other,
  )
]

-- `accepted_share` keeps the header hashes unique, and every pool at ten rows at most.
pub accepted_share-IsKept :
    (x : Share) (s : Store)
    → IsKept s.accepted_shares
    → IsKept (accepted_share x s).1.accepted_shares
unfolding accepted_share
accepted_share-IsKept x s k =
    let keyed = insert_share-IsTable x s.accepted_shares k.keyed in
    record {
      keyed = trim_pool-IsTable x.pool (insert_share x s.accepted_shares) keyed;
      bounded = λ pool. count-accepted x pool s.accepted_shares keyed (k.bounded pool);
    }
