-- ===== src/Fan/Reader.antt =====
-- pocisys-gpu-runtime/fan_controller.py: `NvidiaSmiReader`.
use gauge_umbrel_community.Prelude.{
  ℕ, ◌-◌, Bool, ◌&&◌, ◌||◌, List, [], ◌∷◌, Option, none, some, Text, codes, is_empty, text_eq,
  is_prefix, leb, if◌then◌else◌, filter, map,
}
use gauge_umbrel_community.Fan.State.{GpuSample}

-- What `numeric` makes of a field: no finite number, one below 0, or thousandths.
pub data SmiField : Type 0 where
  unreadable below_zero : SmiField
  reading : ℕ → SmiField

-- A row of five fields or more that nvidia-smi prints.
pub record GpuRow : Type 0 where
  pub name : Text
  pub uuid : Text
  pub temperature : SmiField
  pub utilization : SmiField

-- The rows of `discover`; a row of fewer fields, `none`, is skipped.
unfoldable pub real_rows : List (Option GpuRow) → List GpuRow
real_rows [] = []
real_rows (none ∷ rows) = real_rows rows
real_rows (some r ∷ rows) = r ∷ real_rows rows

unfoldable pub upper : Text → Text
upper t = map (λ c. if leb 97 c && leb c 122 then c - 32 else c) t

unfoldable pub contains : Text → Text → Bool
contains part [] = is_prefix part []
contains part (c ∷ s) = is_prefix part (c ∷ s) || contains part s

unfoldable pub is_p100 : GpuRow → Bool
unfolding upper contains
is_p100 r = contains (codes "P100") (upper r.name)

unfoldable pub p100s : List (Option GpuRow) → List GpuRow
unfolding real_rows is_p100
p100s rows = filter is_p100 (real_rows rows)

-- The UUID of the only one.
unfoldable pub only_uuid : List GpuRow → Option Text
only_uuid (r ∷ []) = some r.uuid
only_uuid _ = none

-- The row of a configured UUID.
unfoldable pub find_gpu : Text → List GpuRow → Option Text
find_gpu uuid [] = none
find_gpu uuid (r ∷ rows) =
    let rest = find_gpu uuid rows in if text_eq r.uuid uuid then some r.uuid else rest

-- `discover`: the UUID that the reader has afterwards; `none` is its `RuntimeError`.
unfoldable pub discover_gpu : Text → List (Option GpuRow) → Option Text
unfolding p100s only_uuid find_gpu
discover_gpu uuid rows =
    if is_empty uuid then only_uuid (p100s rows) else find_gpu uuid (real_rows rows)

unfoldable pub bounded_sample : Text → SmiField → SmiField → Text → Option GpuSample
bounded_sample uuid (reading t) (reading u) row_uuid =
    if text_eq row_uuid uuid && leb t 120000 && leb u 100000
    then some (record { uuid = row_uuid; temperature = t; utilization = u })
    else none
bounded_sample uuid _ _ row_uuid = none

-- The checks of `sample` on the rows for the selected UUID.
unfoldable pub read_row : Text → List (Option GpuRow) → Option GpuSample
unfolding bounded_sample
read_row uuid (some r ∷ []) = bounded_sample uuid r.temperature r.utilization r.uuid
read_row uuid _ = none

abbrev pub read_selected :
    Text → Option Text → (Text → List (Option GpuRow)) → Text × Option GpuSample
read_selected uuid none rows_of = (uuid, none)
read_selected uuid (some found) rows_of = (found, read_row found (rows_of found))

-- `sample`, of the reader's UUID: the UUID that it has afterwards, and the sample; `none` is a
-- `RuntimeError`. nvidia-smi prints `rows` for all GPUs, and `rows_of` for one.
unfoldable pub read_sample :
    Text → List (Option GpuRow) → (Text → List (Option GpuRow)) → Text × Option GpuSample
unfolding discover_gpu read_row
read_sample uuid rows rows_of =
    if is_empty uuid
    then read_selected uuid (discover_gpu uuid rows) rows_of
    else (uuid, read_row uuid (rows_of uuid))
