-- ===== src/Logs/Saved.antt =====
-- pocisys-hash-monitor/services/pool_logs.py: a share and a pool as the history file holds them.
use gauge_umbrel_community.Prelude.{
  ◌*◌, ◌/◌, is_prefix, ℕ, ◌≤◌, ◌<◌, ◌≡◌, refl, true, false, List, [], ◌∷◌, ◌++◌, codes, some, arith,
  Text, is_empty, take, map, length, take_all, length-map, All,
}
use gauge_umbrel_community.Logs.State.{Share, number, absent}
use gauge_umbrel_community.Logs.Stamp.{stamp}
use gauge_umbrel_community.Logs.Shares.{
  first_number, first_text, read_difficulty, share_id, named_share, normalize_share,
}
use gauge_umbrel_community.Logs.History.{raw_share, normalize_shares}

-- A share that the file gives back as it is: its milliseconds are those that its text gives.
pub record IsStored (key : Text) (x : Share) : Type 0 where
  pub positive : 0 < x.difficulty
  pub named : is_empty x.worker ≡ false
  pub short_worker : length x.worker ≤ 128
  pub short_id : length x.id ≤ 128
  pub timed : stamp (x.time_ms * 1000) ≡ x.timestamp_ms
  pub prefixed : is_prefix (key ++ 58 ∷ []) x.id ≡ true

prefixed_full : (key id : Text) → is_prefix (key ++ 58 ∷ []) id ≡ true → is_empty id ≡ false
unfolding is_prefix
prefixed_full [] [] h = ground arith
prefixed_full (c ∷ key) [] h = ground arith
prefixed_full key (c ∷ id) h = refl

first_number-saved :
    (n : ℕ)
    → 0 < n
    → read_difficulty (first_number (number n) (first_number absent absent)) ≡ some n
unfolding first_number read_difficulty
first_number-saved n h = ground arith

read-raw_share :
    (x : Share)
    → 0 < x.difficulty
    → read_difficulty (
        first_number
          (raw_share x).difficulty
          (first_number (raw_share x).share_difficulty (raw_share x).diff))
      ≡ some x.difficulty
unfolding raw_share
read-raw_share x h = first_number-saved x.difficulty h

saved_worker : (w v : Text) → is_empty w ≡ false → length w ≤ 128 → take 128 (first_text w v) ≡ w
unfolding first_text
saved_worker w v full short = rw full (take_all 128 w short)

saved_id :
    (key id fingerprint : Text)
    → is_prefix (key ++ 58 ∷ []) id ≡ true
    → length id ≤ 128
    → share_id key (first_text (take 128 (first_text [] (first_text [] id))) fingerprint) ≡ id
unfolding share_id first_text
saved_id key id fingerprint prefixed short =
    rw (take_all 128 id short) (rw (prefixed_full key id prefixed) (rw prefixed refl))

saved_time : (n : ℕ) → n * 1000 / 1000 ≡ n
saved_time n = omega arith

module _ (print_share : ℕ → Text → ℕ → Text) where
  named-raw_share :
      (key : Text) (x : Share)
      → IsStored key x
      → named_share print_share key (raw_share x) x.difficulty ≡ x
  unfolding named_share raw_share
  named-raw_share key x h =
      rw (saved_worker x.worker (codes "worker") h.named h.short_worker)
        (rw (saved_id key x.id _ h.prefixed h.short_id) (rw (h.timed, saved_time x.time_ms) refl))

  normalize-raw_share :
      (key : Text) (x : Share)
      → IsStored key x
      → normalize_share print_share key (some (raw_share x)) ≡ some x
  unfolding normalize_share
  normalize-raw_share key x h =
      rw (read-raw_share x h.positive, normalize_share) (rw (named-raw_share key x h) refl)

  normalize_shares-saved :
      (key : Text) (xs : List Share)
      → All (IsStored key) xs
      → normalize_shares print_share key (map (λ x. some (raw_share x)) xs) ≡ xs
  unfolding normalize_shares
  normalize_shares-saved key [] h = refl
  normalize_shares-saved key (x ∷ xs) h =
      rw (normalize-raw_share key x h.0) (rw (normalize_shares-saved key xs h.1) refl)

  -- What is read of the shares that are written.
  pub normalize_shares-saved_pool :
      (key : Text) (xs : List Share)
      → All (IsStored key) xs
      → length xs ≤ 10
      → normalize_shares print_share key (take 10 (map (λ x. some (raw_share x)) (take 10 xs))) ≡ xs
  normalize_shares-saved_pool key xs h few = rw (take_all 10 xs few) (
      rw
        (take_all 10 (map (λ x. some (raw_share x)) xs)
          (omega (arith, length-map (λ x. some (raw_share x)) xs)))
        (normalize_shares-saved key xs h))
