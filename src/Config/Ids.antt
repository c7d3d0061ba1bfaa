-- ===== src/Config/Ids.antt =====
-- pocisys-hash-monitor/services/config_transfer.py: the identifiers of what `_clean_items` restores.
use gauge_umbrel_community.Prelude.{
  ℕ, ◌+◌, ◌≤◌, ◌<◌, ◌≡◌, refl, false, List, [], ◌∷◌, ◌⊎◌, inl, inr, Option, none, some, arith, Text,
  text_eq, subst, sym, strip, All, take, length, ◌++◌, ◌∙◌,
}
use gauge_umbrel_community.Config.Values.{ApiError}
use gauge_umbrel_community.Config.Transfer.{
  ItemError, RawItem, Item, is_used, chosen_id, add_item, clean_from, clean_items, make_id,
}

-- No identifier is taken, and no two are the same.
abbrev pub IsDistinct : {B : Type 0} → List Text → List (Item B) → Type 0
IsDistinct used [] = Unit
IsDistinct used (x ∷ xs) = (is_used x.id used ≡ false) × IsDistinct (x.id ∷ used) xs

-- An item that is added has its identifier, and the rest is answered.
add_item-inr :
    {B : Type 0}
    → (o : ApiError ⊎ B) (id : Text) (p : ℕ) (rest : ItemError ⊎ List (Item B)) (ys : List (Item B))
    → add_item o id p rest ≡ inr ys
    → (x : Item B) × (xs : List (Item B)) × (rest ≡ inr xs) × (x ∷ xs ≡ ys) × (x.id ≡ id)
add_item-inr (inl e) id p rest ys h = absurd (ground arith)
add_item-inr (inr x) id p (inl e) ys h = absurd (ground arith)
add_item-inr (inr x) id p (inr xs) ys h =
    (record { id = id; position = p; body = x }, xs, refl, ground arith, refl)

text_eq-append : (s t u : Text) → text_eq (s ++ t) (s ++ u) ≡ text_eq t u
unfolding text_eq
text_eq-append [] t u = refl
text_eq-append (c ∷ s) t u = ground (arith, text_eq-append s t u)

tail_differs : (s t : Text) → text_eq s t ≡ false → text_eq (95 ∷ s) (95 ∷ t) ≡ false
unfolding text_eq
tail_differs s t h = ground arith

make_id-differs :
    (prefix s t : Text)
    → text_eq (take 12 s) (take 12 t) ≡ false
    → text_eq (make_id prefix s) (make_id prefix t) ≡ false
unfolding make_id
make_id-differs prefix s t h =
    text_eq-append prefix (95 ∷ take 12 s) (95 ∷ take 12 t) ∙ tail_differs (take 12 s) (take 12 t) h

-- What is drawn for the positions up to `n`.
module _ (uuid : ℕ → Text) (prefix : Text) (n : ℕ) where
  -- The identifiers that are made from a position on are not taken.
  abbrev IsAhead : ℕ → List Text → Type 0
  IsAhead p used = (q : ℕ) → p ≤ q → q ≤ n → is_used (make_id prefix (uuid q)) used ≡ false

  -- Two positions draw different first twelve digits.
  abbrev pub IsRandom : Type 0
  IsRandom =
      (p q : ℕ) → 1 ≤ p → p < q → q ≤ n → text_eq (take 12 (uuid q)) (take 12 (uuid p)) ≡ false

  -- An identifier of the backup that is not made anew.
  abbrev pub IsForeign : {A : Type 0} → Option (RawItem A) → Type 0
  IsForeign none = Unit
  IsForeign (some r) =
      (q : ℕ) → 1 ≤ q → q ≤ n → text_eq (make_id prefix (uuid q)) (strip r.id) ≡ false

  chosen_id-new :
      (id : Text) (p : ℕ) (used : List Text)
      → p ≤ n
      → IsAhead p used
      → is_used (chosen_id prefix (make_id prefix (uuid p)) id used) used ≡ false
  unfolding chosen_id
  chosen_id-new id p used le h = ground (arith, h p (omega arith) le)

  chosen_id-IsAhead :
      (id : Text) (p : ℕ) (used : List Text)
      → 1 ≤ p
      → IsRandom
      → IsAhead p used
      → ((q : ℕ) → 1 ≤ q → q ≤ n → text_eq (make_id prefix (uuid q)) id ≡ false)
      → IsAhead (p + 1) (chosen_id prefix (make_id prefix (uuid p)) id used ∷ used)
  unfolding chosen_id is_used
  chosen_id-IsAhead id p used one new h foreign q le few = ground (
    arith,
    h q (omega arith) few,
    foreign q (omega arith) few,
    make_id-differs prefix (uuid q) (uuid p) (new p q one (omega arith) few),
  )

module _ {A B : Type 0} (uuid : ℕ → Text) (prefix : Text) (cleaner : A → ApiError ⊎ B) where
  clean_from-IsDistinct :
      (n p : ℕ) (used : List Text) (items : List (Option (RawItem A))) (xs : List (Item B))
      → 1 ≤ p
      → p + length items ≤ n + 1
      → IsRandom uuid prefix n
      → IsAhead uuid prefix n p used
      → All (IsForeign uuid prefix n) items
      → clean_from uuid prefix cleaner p used items ≡ inr xs
      → IsDistinct used xs
  unfolding clean_from
  clean_from-IsDistinct n p used [] xs one few new ahead foreign h =
      let e : [] ≡ xs = ground arith in subst (IsDistinct used) e tt
  clean_from-IsDistinct n p used (none ∷ items) xs one few new ahead foreign h =
      absurd (ground arith)
  clean_from-IsDistinct n p used (some r ∷ items) xs one few new ahead foreign h =
      let id : Text = chosen_id prefix (make_id prefix (uuid p)) (strip r.id) used in
      let (x, ys, rest, whole, named) = add_item-inr (cleaner r.body) id p _ xs h in
      let later : IsDistinct (id ∷ used) ys =
        clean_from-IsDistinct n (p + 1) (id ∷ used) items ys (omega arith) (omega arith) new
          (chosen_id-IsAhead uuid prefix n (strip r.id) p used one new ahead foreign.0) foreign.1
          rest in
      subst (IsDistinct used) whole (
        subst (λ i. (is_used i used ≡ false) × IsDistinct (i ∷ used) ys) (sym named)
          (chosen_id-new uuid prefix n (strip r.id) p used (omega arith) ahead, later))

  -- The items that `_clean_items` answers have identifiers that are all different, where the UUIDs
  -- that are drawn for two of their positions differ within the first twelve hexadecimal digits, and
  -- no identifier that is made of them stands in the backup.
  pub clean_items-IsDistinct :
      (limit : ℕ) (items : List (Option (RawItem A))) (xs : List (Item B))
      → IsRandom uuid prefix (length items)
      → All (IsForeign uuid prefix (length items)) items
      → clean_items uuid prefix cleaner limit (some items) ≡ inr xs
      → IsDistinct [] xs
  unfolding clean_items is_used
  clean_items-IsDistinct limit items xs new foreign h =
      clean_from-IsDistinct (length items) 1 [] items xs (omega arith) (omega arith) new
        (λ q le few. refl) foreign (ground arith)
