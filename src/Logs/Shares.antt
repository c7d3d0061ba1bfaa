-- ===== src/Logs/Shares.antt =====
-- pocisys-hash-monitor/services/pool_logs.py: `_difficulty`, `_normalize_share` and the order of
-- shares.
use gauge_umbrel_community.Prelude.{
  is_prefix, ℕ, true, false, inl, inr, Bool, ◌&&◌, ◌||◌, List, [], ◌∷◌, ◌++◌, Option, none, some,
  Text, codes, text_eq, is_empty, ltb, ◌==◌, ◌/◌, if◌then◌else◌, take, All, Bool-cases,
}
use gauge_umbrel_community.Logs.State.{
  RawNumber, absent, invalid, number, number_text, RawShare, Share,
}
use gauge_umbrel_community.Logs.Stamp.{stamp}

-- `a or b`, of numbers and of texts.
unfoldable pub first_number : RawNumber → RawNumber → RawNumber
first_number absent b = b
first_number invalid b = invalid
first_number (number n) b = if n == 0 then b else number n
first_number (number_text n) b = number_text n

unfoldable pub first_text : Text → Text → Text
first_text a b = if is_empty a then b else a

-- `_difficulty`
unfoldable pub read_difficulty : RawNumber → Option ℕ
read_difficulty absent = none
read_difficulty invalid = none
read_difficulty (number n) = some n
read_difficulty (number_text n) = some n

-- The fingerprint, with the pool's key in front where it is not there.
unfoldable pub share_id : Text → Text → Text
share_id key fingerprint =
    if is_prefix (key ++ 58 ∷ []) fingerprint then fingerprint else key ++ 58 ∷ fingerprint

-- `print_share` prints a time in milliseconds, a worker and a difficulty, where a share names no fingerprint.
module _ (print_share : ℕ → Text → ℕ → Text) where
  unfoldable pub named_share : Text → RawShare → ℕ → Share
  unfolding first_text share_id
  named_share key r difficulty =
      let worker =
        take 128
          (first_text r.worker (first_text r.client_name (first_text r.miner (codes "worker")))) in
      let fingerprint = take 128 (first_text r.header_hash (first_text r.camel_header_hash r.id)) in
      record {
        id = share_id key (first_text fingerprint (print_share (r.when / 1000) worker difficulty));
        time_ms = r.when / 1000;
        timestamp_ms = stamp r.when;
        worker = worker;
        difficulty = difficulty;
      }

  -- `_normalize_share`
  unfoldable pub normalize_share : Text → Option RawShare → Option Share
  unfolding named_share first_number read_difficulty
  normalize_share key none = none
  normalize_share key (some r) =
      elim (read_difficulty (first_number r.difficulty (first_number r.share_difficulty r.diff))) [
        | none ↦ none
        | some difficulty ↦ some (named_share key r difficulty)
      ]

-- `<` of texts.
unfoldable pub text_lt : Text → Text → Bool
text_lt s [] = false
text_lt [] (_ ∷ _) = true
text_lt (a ∷ s) (b ∷ t) = ltb a b || a == b && text_lt s t

-- `(item["timestamp_ms"], item["id"])` is the greater one.
unfoldable pub is_later : Share → Share → Bool
unfolding text_lt
is_later x y =
    ltb y.timestamp_ms x.timestamp_ms || x.timestamp_ms == y.timestamp_ms && text_lt y.id x.id

unfoldable pub insert_share : Share → List Share → List Share
unfolding is_later
insert_share x [] = x ∷ []
insert_share x (y ∷ ys) =
    let rest = insert_share x ys in if is_later x y then x ∷ y ∷ ys else y ∷ rest

-- `sorted(…, reverse=True)`
unfoldable pub sort_shares : List Share → List Share
unfolding insert_share
sort_shares [] = []
sort_shares (x ∷ xs) = insert_share x (sort_shares xs)

-- `by_id[share["id"]] = share`
unfoldable pub put_share : Share → List Share → List Share
put_share x [] = x ∷ []
put_share x (y ∷ ys) = let rest = put_share x ys in if text_eq x.id y.id then x ∷ ys else y ∷ rest

-- `{item["id"]: item for item in current}`
unfoldable pub index_shares : List Share → List Share → List Share
unfolding put_share
index_shares [] index = index
index_shares (x ∷ xs) index = index_shares xs (put_share x index)

module _ (P : Share → Type 0) where
  pub insert_share-All : (x : Share) (ys : List Share) → P x → All P ys → All P (insert_share x ys)
  unfolding insert_share
  insert_share-All x [] p h = (p, tt)
  insert_share-All x (y ∷ ys) p h = elim (Bool-cases (is_later x y)) [
    | inl first ↦ rw first (p, h)
    | inr later ↦ rw later (h.0, insert_share-All x ys p h.1)
  ]

  pub sort_shares-All : (xs : List Share) → All P xs → All P (sort_shares xs)
  unfolding sort_shares
  sort_shares-All [] h = tt
  sort_shares-All (x ∷ xs) h = insert_share-All x (sort_shares xs) h.0 (sort_shares-All xs h.1)

  pub put_share-All : (x : Share) (ys : List Share) → P x → All P ys → All P (put_share x ys)
  unfolding put_share
  put_share-All x [] p h = (p, tt)
  put_share-All x (y ∷ ys) p h = elim (Bool-cases (text_eq x.id y.id)) [
    | inl same ↦ rw same (p, h.1)
    | inr other ↦ rw other (h.0, put_share-All x ys p h.1)
  ]

  pub index_shares-All :
      (xs index : List Share) → All P xs → All P index → All P (index_shares xs index)
  unfolding index_shares
  index_shares-All [] index h k = k
  index_shares-All (x ∷ xs) index h k =
      index_shares-All xs (put_share x index) h.1 (put_share-All x index h.0 k)
