-- ===== src/Logs/Dict.antt =====
-- Python's dictionaries with text keys, as lists of their entries.
use gauge_umbrel_community.Prelude.{
  ℕ, ◌≡◌, refl, Bool, true, false, ◌||◌, ◌∷◌, [], List, Option, none, some, arith, Text, text_eq,
  text_eq→eq, text_eq_refl, if◌then◌else◌, get_or,
}

abbrev pub Dict {ℓ} : Type ℓ → Type ℓ
Dict V = List (Text × V)

unfoldable pub member : Text → List Text → Bool
member k [] = false
member k (j ∷ ks) = text_eq k j || member k ks

module _ {ℓ} {V : Type ℓ} where
  -- `d.get(k)`
  unfoldable pub lookup : Text → Dict V → Option V
  lookup k [] = none
  lookup k ((j, v) ∷ d) = let rest = lookup k d in if text_eq k j then some v else rest

  -- `d[k] = v`
  unfoldable pub insert : Text → V → Dict V → Dict V
  insert k v [] = (k, v) ∷ []
  insert k v ((j, w) ∷ d) =
      let rest = insert k v d in if text_eq k j then (j, v) ∷ d else (j, w) ∷ rest

  -- `{k: v for k, v in d.items() if k in ks}`
  unfoldable pub restrict : List Text → Dict V → Dict V
  unfolding member
  restrict ks [] = []
  restrict ks ((j, v) ∷ d) = let rest = restrict ks d in if member j ks then (j, v) ∷ rest else rest

  -- The keys of a dictionary, added to a list of keys that it does not repeat.
  unfoldable pub add_keys : Dict V → List Text → List Text
  unfolding member
  add_keys [] ks = ks
  add_keys ((j, v) ∷ d) ks = let rest = add_keys d ks in if member j rest then rest else j ∷ rest

  pub lookup-insert :
      (k j : Text) (v : V) (d : Dict V)
      → lookup k (insert j v d) ≡ (if text_eq k j then some v else lookup k d)
  unfolding lookup insert
  lookup-insert k j v [] = refl
  lookup-insert k j v ((i, w) ∷ d) =
      ground (
        arith,
        lookup-insert k j v d,
        text_eq→eq j i,
        text_eq→eq k i,
        text_eq→eq k j,
        text_eq_refl j,
      )

  pub lookup-restrict :
      (k : Text) (ks : List Text) (d : Dict V)
      → lookup k (restrict ks d) ≡ (if member k ks then lookup k d else none)
  unfolding lookup restrict
  lookup-restrict k ks [] = ground arith
  lookup-restrict k ks ((j, v) ∷ d) = ground (arith, lookup-restrict k ks d, text_eq→eq k j)

  member-add_keys :
      (k : Text) (d : Dict V) (ks : List Text)
      → member k ks ≡ true
      → member k (add_keys d ks) ≡ true
  unfolding add_keys member
  member-add_keys k [] ks h = h
  member-add_keys k ((j, v) ∷ d) ks h = ground (arith, member-add_keys k d ks)

  -- A key that is not added was not there.
  pub member-rest :
      (k : Text) (d : Dict V) (ks : List Text)
      → member k (add_keys d ks) ≡ false
      → member k ks ≡ false
  member-rest k d ks h = ground (arith, member-add_keys k d ks)

  pub lookup-add_keys :
      (k : Text) (d : Dict V) (ks : List Text)
      → member k (add_keys d ks) ≡ false
      → lookup k d ≡ none
  unfolding add_keys member lookup
  lookup-add_keys k [] ks h = refl
  lookup-add_keys k ((j, v) ∷ d) ks h = ground (arith, lookup-add_keys k d ks, text_eq→eq k j)

-- `d.get(k, 0)`
abbrev pub value : Text → Dict ℕ → ℕ
value k d = get_or 0 (lookup k d)

pub value-insert :
    (k j : Text) (v : ℕ) (d : Dict ℕ)
    → value k (insert j v d) ≡ (if text_eq k j then v else value k d)
value-insert k j v d = ground (arith, lookup-insert k j v d)
