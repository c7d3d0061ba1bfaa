-- ===== src/Config/Transfer.antt =====
-- pocisys-hash-monitor/services/config_transfer.py: `_clean_items`, over the cleaner of one item, and
-- config_store.py: `make_id`.
use gauge_umbrel_community.Prelude.{
  ℕ, ◌+◌, Bool, false, not, ◌&&◌, ◌||◌, List, [], ◌∷◌, ◌++◌, ◌⊎◌, inl, inr, Option, none, some,
  Text, text_eq, strip, is_prefix, ltb, leb, ◌==◌, if◌then◌else◌, all, length, drop, take,
}
use gauge_umbrel_community.Config.Values.{ApiError}

pub data ItemError : Type 0 where
  not_a_list too_many : ItemError
  not_an_object : ℕ → ItemError
  refused : ApiError → ItemError

-- An object of a backup's list: its `id`, and what the cleaner reads.
pub record RawItem (A : Type 0) : Type 0 where
  pub id : Text
  pub body : A

-- A cleaned item; a miner's `display_order` is its position.
pub record Item (B : Type 0) : Type 0 where
  pub id : Text
  pub position : ℕ
  pub body : B

unfoldable pub is_hex : ℕ → Bool
is_hex c = leb 48 c && leb c 57 || leb 97 c && leb c 102

-- The prefix, a low line and twelve hexadecimal digits.
unfoldable pub is_id : Text → Text → Bool
unfolding is_hex
is_id prefix t =
    is_prefix (prefix ++ 95 ∷ []) t
    && length t == length prefix + 13
    && all is_hex (drop (length prefix + 1) t)

unfoldable pub is_used : Text → List Text → Bool
is_used t [] = false
is_used t (u ∷ used) = text_eq t u || is_used t used

-- The identifier of an item: its own one, or a new one where it has none or it is taken.
unfoldable pub chosen_id : Text → Text → Text → List Text → Text
chosen_id prefix new id used = if not (is_id prefix id) || is_used id used then new else id

abbrev cons_item : {B : Type 0} → Item B → ItemError ⊎ List (Item B) → ItemError ⊎ List (Item B)
cons_item x (inl e) = inl e
cons_item x (inr xs) = inr (x ∷ xs)

-- What the cleaner answers for an item, before the rest of the list.
abbrev pub add_item :
    {B : Type 0} → ApiError ⊎ B → Text → ℕ → ItemError ⊎ List (Item B) → ItemError ⊎ List (Item B)
add_item (inl e) id position rest = inl (refused e)
add_item (inr x) id position rest =
    cons_item (record { id = id; position = position; body = x }) rest

-- `make_id`, of the hexadecimal text of a UUID.
unfoldable pub make_id : Text → Text → Text
make_id prefix hex = prefix ++ 95 ∷ take 12 hex

-- `uuid` gives the text of the UUID that is drawn for each position.
module _ {A B : Type 0} (uuid : ℕ → Text) (prefix : Text) (cleaner : A → ApiError ⊎ B) where
  -- The loop, from a position on and with the identifiers that are taken.
  unfoldable pub clean_from : ℕ → List Text → List (Option (RawItem A)) → ItemError ⊎ List (Item B)
  unfolding chosen_id make_id
  clean_from position used [] = inr []
  clean_from position used (none ∷ items) = inl (not_an_object position)
  clean_from position used (some r ∷ items) =
      let id = chosen_id prefix (make_id prefix (uuid position)) (strip r.id) used in
      let rest = clean_from (position + 1) (id ∷ used) items in
      add_item (cleaner r.body) id position rest

  -- `_clean_items`
  unfoldable pub clean_items : ℕ → Option (List (Option (RawItem A))) → ItemError ⊎ List (Item B)
  unfolding clean_from
  clean_items limit none = inl not_a_list
  clean_items limit (some items) =
      if ltb limit (length items) then inl too_many else clean_from 1 [] items
