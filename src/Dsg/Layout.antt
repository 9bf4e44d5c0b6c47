-- ===== src/Dsg/Layout.antt =====
-- Where the regions of a core lie in the allocated memory.
use spi_nnfront_end_common.Common.{
  ℕ, suc, ◌+◌, ◌<◌, ◌≡◌, refl, sym, ap, ◌∙◌, false, some, List, [], ◌∷◌, ◌++◌, append_assoc, ok,
  ◌==◌, ==_refl, All, All-append, All-imp, arith,
}
use spi_nnfront_end_common.Dsg.Database.{
  Region, app_ptr_table_byte_size, get_region_sizes, get_total_regions_size, set_region_pointer,
}
use spi_nnfront_end_common.Dsg.Malloc.{Core, set_pointers, malloc_core}
use spi_nnfront_end_common.Dsg.Table.{IsOrdered}

-- The regions with their pointers, one behind the other from `next` on.
abbrev pub placed : ℕ → List Region → List Region
placed next [] = []
placed next (r ∷ rs) = record r { pointer = some next } ∷ placed (next + r.size) rs

set_region_pointer-middle :
    (before : List Region) (r : Region) (rs : List Region) (p : ℕ)
    → All (λ b. b.region_num < r.region_num) before
    → set_region_pointer r.region_num p (before ++ r ∷ rs)
      ≡ ok (before ++ record r { pointer = some p } ∷ rs)
unfolding set_region_pointer
set_region_pointer-middle [] r rs p h = rw (==_refl r.region_num) refl
set_region_pointer-middle (b ∷ before) r rs p h =
    let other : (r.region_num == b.region_num) ≡ false = ground arith in
    rw (other, set_region_pointer-middle before r rs p h.1) refl

set_pointers-placed :
    (before : List Region) (rs : List Region) (lo next : ℕ)
    → All (λ b. b.region_num < lo) before
    → IsOrdered lo rs
    → set_pointers (get_region_sizes rs) next (before ++ rs)
      ≡ ok (before ++ placed next rs, next + get_total_regions_size rs)
unfolding set_pointers get_region_sizes get_total_regions_size
set_pointers-placed before [] lo next h o = ap (λ n. ok (before ++ [], n)) (omega arith)
set_pointers-placed before (r ∷ rs) lo next h o =
    let below =
      All-imp (λ b. b.region_num < lo) (λ b. b.region_num < r.region_num) (λ b lt. omega arith)
        before h in
    let later =
      All-append (λ b. b.region_num < suc r.region_num) before
        (record r { pointer = some next } ∷ [])
        (All-imp (λ b. b.region_num < lo) (λ b. b.region_num < suc r.region_num)
          (λ b lt. omega arith) before h)
        (omega arith, tt) in
    rw (set_region_pointer-middle before r rs next below) (
      ap (λ l. set_pointers (get_region_sizes rs) (next + r.size) l)
        (sym (append_assoc before (record r { pointer = some next } ∷ []) rs))
      ∙ set_pointers-placed (before ++ record r { pointer = some next } ∷ []) rs (suc r.region_num)
          (next + r.size) later o.1
      ∙ ap (λ l. ok (l, next + r.size + get_total_regions_size rs))
          (append_assoc before (record r { pointer = some next } ∷ []) (placed (next + r.size) rs))
      ∙ ap (λ n. ok (before ++ placed next (r ∷ rs), n))
          {x = next + r.size + get_total_regions_size rs} (omega arith))

total-placed :
    (next : ℕ) (rs : List Region)
    → get_total_regions_size (placed next rs) ≡ get_total_regions_size rs
unfolding get_total_regions_size
total-placed next [] = refl
total-placed next (r ∷ rs) = ap (λ n. r.size + n) (total-placed (next + r.size) rs)

-- What the allocation returns for the regions, with the table in front of them.
abbrev pub placed_core : ℕ → List Region → Core
placed_core start regions = record {
  start_address = some start;
  regions = placed (start + app_ptr_table_byte_size) regions;
}

-- Setting up the memory of a core whose regions are in the order of their numbers never raises by its
-- own check: each region gets its pointer, the first one behind the pointer table and each other one
-- where the region before it ends.
pub malloc_core-placed :
    (core : Core) (start : ℕ)
    → IsOrdered 0 core.regions
    → malloc_core core start ≡ ok (placed_core start core.regions)
unfolding malloc_core
malloc_core-placed core start o =
    let placed_all : set_pointers (get_region_sizes core.regions) (start + app_ptr_table_byte_size)
          core.regions
        ≡ ok (
          placed (start + app_ptr_table_byte_size) core.regions,
          start + app_ptr_table_byte_size + get_total_regions_size core.regions,
        ) =
      set_pointers-placed [] core.regions 0 (start + app_ptr_table_byte_size) tt o in
    rw
      (
        placed_all,
        total-placed (start + app_ptr_table_byte_size) core.regions,
        ==_refl (start + app_ptr_table_byte_size + get_total_regions_size core.regions),
      )
      refl
