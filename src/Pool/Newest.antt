-- ===== src/Pool/Newest.antt =====
-- pocisys-public-pool-port/app/store.py: the newest share of a pool is kept.
use gauge_umbrel_community.Prelude.{
  ◌≤◌, ◌<◌, ◌≡◌, refl, Bool, true, false, List, [], ◌∷◌, arith, text_eq_refl, ◌==◌, filter, any,
  All, All-filter, Bool-cases, inl, inr,
}
use gauge_umbrel_community.Pool.Store.{
  Share, ShareRow, Store, next_id, is_known_hash, insert_share, in_pool, kept_ids, trim_pool,
  sort_shares, accepted_share, insert_sorted, comes_first,
}
use gauge_umbrel_community.Pool.Shares.{below-next_id}

insert_sorted-first :
    (x : ShareRow) (ys : List ShareRow)
    → All (λ y. comes_first y x ≡ false) ys
    → insert_sorted x ys ≡ x ∷ ys
unfolding insert_sorted
insert_sorted-first x [] h = refl
insert_sorted-first x (y ∷ ys) h = rw (h.0) refl

module _ (P : ShareRow → Type 0) where
  insert_sorted-All :
      (x : ShareRow) (ys : List ShareRow) → P x → All P ys → All P (insert_sorted x ys)
  unfolding insert_sorted
  insert_sorted-All x [] p h = (p, tt)
  insert_sorted-All x (y ∷ ys) p h = elim (Bool-cases (comes_first y x)) [
    | inl later ↦ rw later (h.0, insert_sorted-All x ys p h.1)
    | inr first ↦ rw first (p, h)
  ]

  sort_shares-All : (xs : List ShareRow) → All P xs → All P (sort_shares xs)
  unfolding sort_shares
  sort_shares-All [] h = tt
  sort_shares-All (x ∷ xs) h = insert_sorted-All x (sort_shares xs) h.0 (sort_shares-All xs h.1)

not_after :
    (x : ShareRow) (ys : List ShareRow)
    → All (λ (y : ShareRow). y.id < x.id) ys
    → All (λ (y : ShareRow). y.share.received_at ≤ x.share.received_at) ys
    → All (λ y. comes_first y x ≡ false) ys
unfolding comes_first
not_after x [] h k = tt
not_after x (y ∷ ys) h k = (ground arith, not_after x ys h.1 k.1)

kept_ids-first :
    (x : ShareRow) (rows : List ShareRow)
    → All (λ (y : ShareRow). y.id < x.id) rows
    → All (λ (y : ShareRow). y.share.received_at ≤ x.share.received_at) rows
    → any (λ i. x.id == i) (kept_ids x.share.pool (x ∷ rows)) ≡ true
unfolding kept_ids sort_shares in_pool
kept_ids-first x rows older earlier =
    let pool : ShareRow → Bool = in_pool x.share.pool in
    rw (text_eq_refl x.share.pool) (
      rw
        (insert_sorted-first x (sort_shares (filter pool rows)) (
          sort_shares-All (λ y. comes_first y x ≡ false) (filter pool rows)
            (All-filter _ pool rows (not_after x rows older earlier))))
        ground arith)

trim_pool-first :
    (x : ShareRow) (rows : List ShareRow)
    → any (λ i. x.id == i) (kept_ids x.share.pool (x ∷ rows)) ≡ true
    → is_known_hash x.share.header_hash (trim_pool x.share.pool (x ∷ rows)) ≡ true
unfolding trim_pool is_known_hash
trim_pool-first x rows h = ground (arith, text_eq_refl x.share.header_hash)

-- A share with a new header hash, received no earlier than those stored, is stored and survives the
-- deletion of the older ones; and `accepted_share` answers that it is new.
pub accepted_share_newest :
    (x : Share) (s : Store)
    → is_known_hash x.header_hash s.accepted_shares ≡ false
    → All (λ y. y.share.received_at ≤ x.received_at) s.accepted_shares
    → ((accepted_share x s).0 ≡ true)
      × (is_known_hash x.header_hash (accepted_share x s).1.accepted_shares ≡ true)
unfolding accepted_share insert_share
accepted_share_newest x s new earlier =
    let row : ShareRow = record { id = next_id s.accepted_shares; share = x } in
    rw new (
      refl,
      trim_pool-first row s.accepted_shares (
          kept_ids-first row s.accepted_shares
            (below-next_id (next_id s.accepted_shares) s.accepted_shares (omega arith)) earlier),
    )
