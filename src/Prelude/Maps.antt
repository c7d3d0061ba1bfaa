-- ===== src/Prelude/Maps.antt =====
-- Dictionaries as functions, with Python's `d[k] = v` and `d.pop(k, None)`.
use Prim.Native.Nat.{ℕ}
use mathlib.Core.Bool.{◌&&◌}
use mathlib.Core.Option.{Option, none, some}
use gauge_umbrel_community.Prelude.Tests.{◌==◌, if◌then◌else◌}

module _ {ℓ} {V : Type ℓ} where
  abbrev pub put : ℕ → V → (ℕ → Option V) → ℕ → Option V
  put k v m j = if j == k then some v else m j

  abbrev pub pop : ℕ → (ℕ → Option V) → ℕ → Option V
  pop k m j = if j == k then none else m j

  -- Keyed by a pair.
  abbrev pub put_pair : ℕ → ℕ → V → (ℕ → ℕ → Option V) → ℕ → ℕ → Option V
  put_pair k l v m i j = if i == k && j == l then some v else m i j

  abbrev pub pop_pair : ℕ → ℕ → (ℕ → ℕ → Option V) → ℕ → ℕ → Option V
  pop_pair k l m i j = if i == k && j == l then none else m i j

  -- `d.get(k, default)`
  abbrev pub get_or : V → Option V → V
  get_or d none = d
  get_or d (some v) = v
