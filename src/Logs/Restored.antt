-- ===== src/Logs/Restored.antt =====
-- pocisys-hash-monitor/services/pool_logs.py: what is loaded is what was saved.
use gauge_umbrel_community.Prelude.{
  ℕ, ◌≤◌, ◌<◌, ◌≡◌, ◌⊎◌, refl, false, inl, inr, [], Option, none, some, arith, Text, text_eq,
  text_eq_refl, is_empty, take, length, All, strip, get_or, ◌∙◌,
}
use gauge_umbrel_community.Logs.Dict.{Dict, lookup, lookup-insert}
use gauge_umbrel_community.Logs.State.{LogState, SavedPool}
use gauge_umbrel_community.Logs.Shares.{read_difficulty}
use gauge_umbrel_community.Logs.History.{
  normalize_shares, saved_pool, saved_number, shares_of, load_best, load_worker, load_reset,
  load_pool,
}
use gauge_umbrel_community.Logs.Saved.{IsStored, normalize_shares-saved_pool}

lookup-load_best :
    (k : Text) (o : Option ℕ) (d : Dict ℕ)
    → (lookup k d ≡ none) ⊎ (lookup k d ≡ o)
    → lookup k (load_best k (read_difficulty (saved_number o)) d) ≡ o
unfolding load_best read_difficulty saved_number
lookup-load_best k none d h = ground arith
lookup-load_best k (some n) d h = ground (arith, lookup-insert k k n d, text_eq_refl k)

strip-empty : strip [] ≡ []
unfolding strip
strip-empty = refl

lookup-load_worker :
    (k : Text) (o : Option Text) (d : Dict Text)
    → ((w : Text) → o ≡ some w → (take 128 (strip w) ≡ w) × (is_empty w ≡ false))
    → (lookup k d ≡ none) ⊎ (lookup k d ≡ o)
    → lookup k (load_worker k (take 128 (strip (get_or [] o))) d) ≡ o
unfolding load_worker
lookup-load_worker k none d h e = rw strip-empty (ground arith)
lookup-load_worker k (some w) d h e =
    rw (h w refl).0 (rw (h w refl).1 (rw (lookup-insert k k w d) (rw (text_eq_refl k) refl)))

lookup-load_reset :
    (k : Text) (o : Option ℕ) (d : Dict ℕ)
    → ((r : ℕ) → o ≡ some r → 0 < r)
    → (lookup k d ≡ none) ⊎ (lookup k d ≡ o)
    → lookup k (load_reset k (get_or 0 o) d) ≡ o
unfolding load_reset
lookup-load_reset k none d h e = ground arith
lookup-load_reset k (some r) d h e = ground (arith, h r refl, lookup-insert k k r d, text_eq_refl k)

lookup-load_best-other :
    (k j : Text) (o : Option ℕ) (d : Dict ℕ)
    → text_eq k j ≡ false
    → lookup k (load_best j o d) ≡ lookup k d
unfolding load_best
lookup-load_best-other k j none d h = refl
lookup-load_best-other k j (some n) d h = ground (arith, lookup-insert k j n d)

lookup-load_worker-other :
    (k j w : Text) (d : Dict Text) → text_eq k j ≡ false → lookup k (load_worker j w d) ≡ lookup k d
unfolding load_worker
lookup-load_worker-other k j w d h = ground (arith, lookup-insert k j w d)

lookup-load_reset-other :
    (k j : Text) (r : ℕ) (d : Dict ℕ)
    → text_eq k j ≡ false
    → lookup k (load_reset j r d) ≡ lookup k d
unfolding load_reset
lookup-load_reset-other k j r d h = ground (arith, lookup-insert k j r d)

-- What the file can hold of a pool: shares that are given back, no more than ten; a best worker that
-- is no longer than 128 characters, without blanks around; and a reset after the epoch.
pub record IsStorable (k : Text) (s : LogState) : Type 0 where
  pub shares : All (IsStored k) (shares_of k s)
  pub few : length (shares_of k s) ≤ 10
  pub worker :
      (w : Text)
      → lookup k s.all_time.worker ≡ some w
      → (take 128 (strip w) ≡ w) × (is_empty w ≡ false)
  pub reset : (r : ℕ) → lookup k s.reset_after ≡ some r → 0 < r

-- Two services know the same shares, bests and reset of a pool.
pub record IsSame (k : Text) (s t : LogState) : Type 0 where
  pub shares : shares_of k t ≡ shares_of k s
  pub best : lookup k t.all_time.best ≡ lookup k s.all_time.best
  pub worker : lookup k t.all_time.worker ≡ lookup k s.all_time.worker
  pub reset : lookup k t.reset_after ≡ lookup k s.reset_after

-- A service knows nothing of a pool.
pub record IsBlank (k : Text) (t : LogState) : Type 0 where
  pub shares : lookup k t.share_history ≡ none
  pub best : lookup k t.all_time.best ≡ none
  pub worker : lookup k t.all_time.worker ≡ none
  pub reset : lookup k t.reset_after ≡ none

module _ (print_share : ℕ → Text → ℕ → Text) (s : LogState) (k : Text) where
  shares-load_pool :
      (t : LogState)
      → IsStorable k s
      → shares_of k (load_pool print_share k (saved_pool s k) t) ≡ shares_of k s
  unfolding shares_of load_pool saved_pool
  shares-load_pool t h = rw (lookup-insert k k _ t.share_history) (
      rw (text_eq_refl k)
        (normalize_shares-saved_pool print_share k (shares_of k s) h.shares h.few))

  pub load_pool-IsSame :
      (t : LogState)
      → IsStorable k s
      → IsBlank k t ⊎ IsSame k s t
      → IsSame k s (load_pool print_share k (saved_pool s k) t)
  unfolding load_pool saved_pool
  load_pool-IsSame t h (inl b) = record {
    shares = shares-load_pool t h;
    best = lookup-load_best k _ _ (inl b.best);
    worker = lookup-load_worker k _ _ h.worker (inl b.worker);
    reset = lookup-load_reset k _ _ h.reset (inl b.reset);
  }
  load_pool-IsSame t h (inr b) = record {
    shares = shares-load_pool t h;
    best = lookup-load_best k _ _ (inr b.best);
    worker = lookup-load_worker k _ _ h.worker (inr b.worker);
    reset = lookup-load_reset k _ _ h.reset (inr b.reset);
  }

  pub other-IsSame :
      (j : Text) (p : SavedPool) (t : LogState)
      → text_eq k j ≡ false
      → IsSame k s t
      → IsSame k s (load_pool print_share j p t)
  unfolding load_pool shares_of
  other-IsSame j p t e b = record {
    shares = ground (
      arith,
      b.shares,
      lookup-insert k j (normalize_shares print_share j (take 10 p.shares)) t.share_history,
    );
    best = lookup-load_best-other k j _ _ e ∙ b.best;
    worker = lookup-load_worker-other k j _ _ e ∙ b.worker;
    reset = lookup-load_reset-other k j _ _ e ∙ b.reset;
  }

  pub other-IsBlank :
      (j : Text) (p : SavedPool) (t : LogState)
      → text_eq k j ≡ false
      → IsBlank k t
      → IsBlank k (load_pool print_share j p t)
  unfolding load_pool
  other-IsBlank j p t e b = record {
    shares = ground (
      arith,
      b.shares,
      lookup-insert k j (normalize_shares print_share j (take 10 p.shares)) t.share_history,
    );
    best = lookup-load_best-other k j _ _ e ∙ b.best;
    worker = lookup-load_worker-other k j _ _ e ∙ b.worker;
    reset = lookup-load_reset-other k j _ _ e ∙ b.reset;
  }
