-- ===== src/Dsg/Database.antt =====
-- The regions of one core in the database (spinn_front_end_common/interface/ds/
-- ds_sqllite_database.py). A table with a primary key is a list in the order of the key, which is
-- the order in which the queries read it.
use spi_nnfront_end_common.Common.{
  ℕ, ◌+◌, Bool, true, false, Option, none, some, List, [], ◌∷◌, Result, ok, err,
  ds_database_exception, integrity_error, ltb, ◌==◌, if◌then◌else◌, length, ◌>>=◌, ◌>>◌, raise_if,
}
use spi_nnfront_end_common.Common.Words.{Bytes}

-- A row of the table `region`. Content that is NULL or empty is one for every reader.
pub record Region : Type 0 where
  pub region_num : ℕ
  pub size : ℕ
  pub reference_num : Option ℕ
  pub content : Bytes
  pub pointer : Option ℕ

abbrev pub app_ptr_table_byte_size : ℕ
app_ptr_table_byte_size = 392

abbrev same_reference : Option ℕ → Option ℕ → Bool
same_reference (some m) (some n) = m == n
same_reference _ _ = false

-- The unique index on the reference numbers.
unfoldable pub reference_in_use : Option ℕ → List Region → Bool
reference_in_use reference [] = false
reference_in_use reference (r ∷ rs) =
    let rest = reference_in_use reference rs in
    if same_reference reference r.reference_num then true else rest

-- INSERT, which the primary key refuses where the number is taken.
unfoldable pub insert_region : Region → List Region → Result (List Region)
insert_region region [] = ok (region ∷ [])
insert_region region (r ∷ rs) =
    if ltb region.region_num r.region_num
    then ok (region ∷ r ∷ rs)
    else if region.region_num == r.region_num
    then err integrity_error
    else do rest ← insert_region region rs; ok (r ∷ rest)

unfoldable pub set_memory_region : ℕ → ℕ → Option ℕ → List Region → Result (List Region)
set_memory_region region_num size reference regions = do
  raise_if (reference_in_use reference regions) integrity_error
  insert_region
      (record {
        region_num = region_num;
        size = size;
        reference_num = reference;
        content = [];
        pointer = none;
      })
      regions

unfoldable pub get_region_size : ℕ → List Region → Result ℕ
get_region_size region_num [] = err ds_database_exception
get_region_size region_num (r ∷ rs) =
    if region_num == r.region_num then ok r.size else get_region_size region_num rs

-- Content is never overwritten.
unfoldable pub set_region_content : ℕ → Bytes → List Region → Result (List Region)
set_region_content region_num content [] = err ds_database_exception
set_region_content region_num content (r ∷ rs) =
    if region_num == r.region_num
    then (if length r.content == 0
        then ok (record r { content = content } ∷ rs)
        else err ds_database_exception)
    else do rest ← set_region_content region_num content rs; ok (r ∷ rest)

unfoldable pub set_region_pointer : ℕ → ℕ → List Region → Result (List Region)
set_region_pointer region_num pointer [] = err ds_database_exception
set_region_pointer region_num pointer (r ∷ rs) =
    if region_num == r.region_num
    then ok (record r { pointer = some pointer } ∷ rs)
    else do rest ← set_region_pointer region_num pointer rs; ok (r ∷ rest)

-- `get_region_sizes`: the numbers with their sizes.
unfoldable pub get_region_sizes : List Region → List (ℕ × ℕ)
get_region_sizes [] = []
get_region_sizes (r ∷ rs) = (r.region_num, r.size) ∷ get_region_sizes rs

unfoldable pub get_total_regions_size : List Region → ℕ
get_total_regions_size [] = 0
get_total_regions_size (r ∷ rs) = r.size + get_total_regions_size rs

-- The view `content_size_view`.
unfoldable pub contents_size : List Region → ℕ
contents_size [] = 0
contents_size (r ∷ rs) = length r.content + contents_size rs

unfoldable pub get_memory_to_write : List Region → ℕ
get_memory_to_write regions = app_ptr_table_byte_size + contents_size regions
