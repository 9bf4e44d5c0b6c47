-- ===== src/Dsg/Malloc.antt =====
-- Setting up the memory of a core's regions (spinn_front_end_common/interface/interface_functions/
-- load_data_specification.py). The address that the transceiver's allocation returned is an argument.
use spi_nnfront_end_common.Common.{
  ℕ, ◌+◌, not, Option, some, List, [], ◌∷◌, Result, ok, data_spec_exception, ◌==◌, raise_if, ◌>>=◌,
  ◌>>◌,
}
use spi_nnfront_end_common.Dsg.Database.{
  Region, app_ptr_table_byte_size, get_region_sizes, get_total_regions_size, set_region_pointer,
}

-- A core's row and regions.
pub record Core : Type 0 where
  pub start_address : Option ℕ
  pub regions : List Region

-- `total_size + APP_PTR_TABLE_BYTE_SIZE`, the size that is allocated
unfoldable pub malloc_size : List Region → ℕ
malloc_size regions = get_total_regions_size regions + app_ptr_table_byte_size

-- The loop over the regions' sizes: the table with the pointers, and the next pointer.
unfoldable pub set_pointers : List (ℕ × ℕ) → ℕ → List Region → Result (List Region × ℕ)
set_pointers [] next_pointer regions = ok (regions, next_pointer)
set_pointers (entry ∷ sizes) next_pointer regions = do
  regions' ← set_region_pointer entry.0 next_pointer regions
  set_pointers sizes (next_pointer + entry.1) regions'

-- `__python_malloc_core`, where the allocation returned `start_address`.
unfoldable pub malloc_core : Core → ℕ → Result Core
malloc_core core start_address = do
  let first = start_address + app_ptr_table_byte_size
  set ← set_pointers (get_region_sizes core.regions) first core.regions
  raise_if (not (set.1 == first + get_total_regions_size set.0)) data_spec_exception
  ok (record { start_address = some start_address; regions = set.0 })
