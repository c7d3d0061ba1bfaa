-- ===== src/Logs/Reloaded.antt =====
-- pocisys-hash-monitor/services/pool_logs.py: a restart after `_save_share_history`.
use gauge_umbrel_community.Prelude.{
  ℕ, ◌≤◌, ◌≡◌, ◌⊎◌, refl, sym, subst, true, false, Bool, Bool-cases, inl, inr, List, [], ◌∷◌,
  Option, some, arith, Text, text_eq, text_eq→eq, map, length, take_all, length-map, ltb, ◌∙◌,
}
use gauge_umbrel_community.Logs.Dict.{lookup, member, member-rest, lookup-add_keys, add_keys}
use gauge_umbrel_community.Logs.State.{Payload, PoolConfig, LogState}
use gauge_umbrel_community.Logs.History.{
  saved_pool, shares_of, load_pool, load_pools, payload, saved_keys, fresh, load_share_history,
  save_share_history,
}
use gauge_umbrel_community.Logs.Restored.{
  IsStorable, IsSame, IsBlank, load_pool-IsSame, other-IsSame, other-IsBlank,
}

module _ (print_share : ℕ → Text → ℕ → Text) (s : LogState) (k : Text) where
  abbrev loaded : List Text → LogState → LogState
  loaded keys t = load_pools print_share (map (λ j. (j, saved_pool s j)) keys) t

  own-IsSame :
      (j : Text) (t : LogState)
      → text_eq k j ≡ true
      → IsStorable k s
      → IsBlank k t ⊎ IsSame k s t
      → IsSame k s (load_pool print_share j (saved_pool s j) t)
  own-IsSame j t e h b =
      subst (λ i. IsSame k s (load_pool print_share i (saved_pool s i) t)) (text_eq→eq k j e)
        (load_pool-IsSame print_share s k t h b)

  loaded-IsSame :
      (keys : List Text) (t : LogState) → IsStorable k s → IsSame k s t → IsSame k s (loaded keys t)
  unfolding load_pools
  loaded-IsSame [] t h b = b
  loaded-IsSame (j ∷ keys) t h b = elim (Bool-cases (text_eq k j)) [
    | inl same ↦ loaded-IsSame keys _ h (own-IsSame j t same h (inr b))
    | inr other ↦ loaded-IsSame keys _ h (other-IsSame print_share s k j (saved_pool s j) t other b)
  ]

  loaded-member :
      (keys : List Text) (t : LogState)
      → IsStorable k s
      → IsBlank k t
      → member k keys ≡ true
      → IsSame k s (loaded keys t)
  unfolding load_pools member
  loaded-member [] t h b m = absurd (ground arith)
  loaded-member (j ∷ keys) t h b m = elim (Bool-cases (text_eq k j)) [
    | inl same ↦ loaded-IsSame keys _ h (own-IsSame j t same h (inl b))
    | inr other ↦
        loaded-member keys _ h (other-IsBlank print_share s k j (saved_pool s j) t other b)
          (ground arith)
  ]

  loaded-IsBlank :
      (keys : List Text) (t : LogState)
      → IsBlank k t
      → member k keys ≡ false
      → IsBlank k (loaded keys t)
  unfolding load_pools member
  loaded-IsBlank [] t b m = b
  loaded-IsBlank (j ∷ keys) t b m =
      loaded-IsBlank keys _ (other-IsBlank print_share s k j (saved_pool s j) t (ground arith) b)
        (ground arith)

  unsaved-IsBlank : member k (saved_keys s) ≡ false → IsBlank k s
  unfolding saved_keys
  unsaved-IsBlank m =
      let resets : List Text = add_keys s.reset_after [] in
      let workers : List Text = add_keys s.all_time.worker resets in
      let bests : List Text = add_keys s.all_time.best workers in
      let m1 : member k bests ≡ false = member-rest k s.share_history bests m in
      let m2 : member k workers ≡ false = member-rest k s.all_time.best workers m1 in
      let m3 : member k resets ≡ false = member-rest k s.all_time.worker resets m2 in
      record {
        shares = lookup-add_keys k s.share_history bests m;
        best = lookup-add_keys k s.all_time.best workers m1;
        worker = lookup-add_keys k s.all_time.worker resets m2;
        reset = lookup-add_keys k s.reset_after [] m3;
      }

  blank-IsSame : (t : LogState) → IsBlank k s → IsBlank k t → IsSame k s t
  unfolding shares_of
  blank-IsSame t b c = record {
    shares = ground (arith, b.shares, c.shares);
    best = c.best ∙ sym b.best;
    worker = c.worker ∙ sym b.worker;
    reset = c.reset ∙ sym b.reset;
  }

  fresh-IsBlank :
      (pools : List PoolConfig) (has_path : Bool) (file : Option Payload)
      → IsBlank k (fresh pools has_path file)
  unfolding fresh lookup
  fresh-IsBlank pools has_path file = record {
    shares = refl;
    best = refl;
    worker = refl;
    reset = refl;
  }

  loaded-saved_keys :
      (t : LogState) → IsStorable k s → IsBlank k t → IsSame k s (loaded (saved_keys s) t)
  loaded-saved_keys t h b = elim (Bool-cases (member k (saved_keys s))) [
    | inl saved ↦ loaded-member (saved_keys s) t h b saved
    | inr unsaved ↦
        blank-IsSame _ (unsaved-IsBlank unsaved) (loaded-IsBlank (saved_keys s) t b unsaved)
  ]

file-save : (s : LogState) → s.has_path ≡ true → (save_share_history s).file ≡ some (payload s)
unfolding save_share_history
file-save s path = ground arith

load-fresh :
    (print_share : ℕ → Text → ℕ → Text) (size : Payload → ℕ) (pools : List PoolConfig) (p : Payload)
    → length p ≤ 100
    → size p ≤ 262144
    → load_share_history print_share size (fresh pools true (some p))
      ≡ load_pools print_share p (fresh pools true (some p))
unfolding load_share_history fresh
load-fresh print_share size pools p few small =
    let fits : ltb 262144 (size p) ≡ false = ground arith in rw fits (rw (take_all 100 p few) refl)

length-payload : (s : LogState) → length (payload s) ≡ length (saved_keys s)
unfolding payload
length-payload s = length-map (λ j. (j, saved_pool s j)) (saved_keys s)

payload-loaded :
    (print_share : ℕ → Text → ℕ → Text) (s : LogState) (k : Text) (t : LogState)
    → IsStorable k s
    → IsBlank k t
    → IsSame k s (load_pools print_share (payload s) t)
unfolding payload
payload-loaded print_share s k t h b = loaded-saved_keys print_share s k t h b

-- A service that starts with the history file that another one has saved knows of a pool the same
-- shares, best, best worker and reset, where these are such that the file can hold them (also, the
-- milliseconds of each share are those that the text of its time gives), the file has no more than a
-- hundred pools, and no more than 256 KiB.
pub load_share_history-save :
    (print_share : ℕ → Text → ℕ → Text) (size : Payload → ℕ) (s : LogState)
    (pools : List PoolConfig) (k : Text)
    → s.has_path ≡ true
    → length (saved_keys s) ≤ 100
    → size (payload s) ≤ 262144
    → IsStorable k s
    → IsSame k s
        (load_share_history print_share size (fresh pools true (save_share_history s).file))
load_share_history-save print_share size s pools k path few small h = rw (file-save s path) (
    rw (load-fresh print_share size pools (payload s) (omega (arith, length-payload s)) small) (
      payload-loaded print_share s k _ h
        (fresh-IsBlank print_share s k pools true (some (payload s)))))
