-- ===== src/Fan/Selected.antt =====
-- pocisys-gpu-runtime/fan_controller.py: which GPU a sample is of.
use gauge_umbrel_community.Prelude.{
  ◌≤◌, ◌≡◌, ◌⊎◌, inl, inr, refl, ap, subst, sym, true, false, List, [], ◌∷◌, Option, none, some,
  arith, Text, is_empty, text_eq, text_eq→eq, text_eq_refl, any, length,
}
use gauge_umbrel_community.Fan.State.{GpuSample}
use gauge_umbrel_community.Fan.Reader.{
  SmiField, reading, unreadable, below_zero, GpuRow, p100s, only_uuid, discover_gpu, bounded_sample,
  read_row, read_selected, read_sample,
}

-- A sample of this GPU, within the bounds.
pub record IsReading (uuid : Text) (g : GpuSample) : Type 0 where
  pub own : g.uuid ≡ uuid
  pub cool : g.temperature ≤ 120000
  pub used : g.utilization ≤ 100000

-- The only P100 of the rows has this UUID.
pub record IsOnly (rows : List (Option GpuRow)) (uuid : Text) : Type 0 where
  pub single : length (p100s rows) ≡ 1
  pub listed : any (λ r. text_eq uuid r.uuid) (p100s rows) ≡ true

bounded_sample-IsReading :
    (uuid : Text) (t u : SmiField) (own : Text) (g : GpuSample)
    → bounded_sample uuid t u own ≡ some g
    → IsReading uuid g
unfolding bounded_sample
bounded_sample-IsReading uuid (reading t) (reading u) own g h = record {
  own = ground (arith, text_eq→eq own uuid);
  cool = ground arith;
  used = ground arith;
}
bounded_sample-IsReading uuid unreadable u own g h = absurd (ground arith)
bounded_sample-IsReading uuid below_zero u own g h = absurd (ground arith)
bounded_sample-IsReading uuid (reading t) unreadable own g h = absurd (ground arith)
bounded_sample-IsReading uuid (reading t) below_zero own g h = absurd (ground arith)

read_row-IsReading :
    (uuid : Text) (rows : List (Option GpuRow)) (g : GpuSample)
    → read_row uuid rows ≡ some g
    → IsReading uuid g
unfolding read_row
read_row-IsReading uuid [] g h = absurd (ground arith)
read_row-IsReading uuid (none ∷ rows) g h = absurd (ground arith)
read_row-IsReading uuid (some r ∷ []) g h =
    bounded_sample-IsReading uuid r.temperature r.utilization r.uuid g h
read_row-IsReading uuid (some r ∷ s ∷ rows) g h = absurd (ground arith)

only_uuid-listed :
    (rs : List GpuRow) (v : Text)
    → only_uuid rs ≡ some v
    → (length rs ≡ 1) × (any (λ r. text_eq v r.uuid) rs ≡ true)
unfolding only_uuid
only_uuid-listed [] v h = absurd (ground arith)
only_uuid-listed (r ∷ []) v h = (refl, ground (arith, text_eq_refl v))
only_uuid-listed (r ∷ s ∷ rs) v h = absurd (ground arith)

discover_gpu-IsOnly :
    (rows : List (Option GpuRow)) (v : Text) → discover_gpu [] rows ≡ some v → IsOnly rows v
unfolding discover_gpu
discover_gpu-IsOnly rows v h =
    let listed = only_uuid-listed (p100s rows) v h in
    record { single = listed.0; listed = listed.1 }

module _ (rows : List (Option GpuRow)) (rows_of : Text → List (Option GpuRow)) where
  read_selected-IsReading :
      (o : Option Text) (v : Text) (g : GpuSample)
      → discover_gpu [] rows ≡ o
      → read_selected [] o rows_of ≡ (v, some g)
      → IsReading v g × IsOnly rows v
  read_selected-IsReading none v g e h = absurd (ground arith)
  read_selected-IsReading (some found) v g e h =
      let id : found ≡ v = ap (λ (p : Text × Option GpuSample). p.0) h in
      let row : read_row found (rows_of found) ≡ some g =
        ap (λ (p : Text × Option GpuSample). p.1) h in
      subst (λ w. IsReading w g × IsOnly rows w) id
        (read_row-IsReading found (rows_of found) g row, discover_gpu-IsOnly rows found e)

  -- A sample is within 0 to 120 degrees and 0 to 100 percent, and of the GPU whose UUID the reader
  -- has afterwards: the configured one, or, where none was configured, that of the only P100 that
  -- nvidia-smi lists.
  pub read_sample-IsReading :
      (uuid v : Text) (g : GpuSample)
      → read_sample uuid rows rows_of ≡ (v, some g)
      → IsReading v g × ((is_empty uuid ≡ false) × (v ≡ uuid) ⊎ IsOnly rows v)
  unfolding read_sample
  read_sample-IsReading [] v g h =
      let a = read_selected-IsReading (discover_gpu [] rows) v g refl h in (a.0, inr a.1)
  read_sample-IsReading (c ∷ uuid) v g h =
      let id : c ∷ uuid ≡ v = ap (λ (p : Text × Option GpuSample). p.0) h in
      let row : read_row (c ∷ uuid) (rows_of (c ∷ uuid)) ≡ some g =
        ap (λ (p : Text × Option GpuSample). p.1) h in
      (
        subst (λ w. IsReading w g) id (read_row-IsReading (c ∷ uuid) (rows_of (c ∷ uuid)) g row),
        inl (refl, sym id),
      )
