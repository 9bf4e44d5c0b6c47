-- ===== src/Dsg/Loaded.antt =====
-- Loading a core whose memory was set up writes its regions into that memory, and passes the check.
use spi_nnfront_end_common.Common.{
  ℕ, ◌+◌, ◌^◌, ◌≤◌, ◌<◌, ◌≡◌, refl, ap, ◌∙◌, inl, inr, true, Option, none, some, List, [], ◌∷◌,
  ◌++◌, append-nil, ok, leb, ◌==◌, ==_iff, Bool-cases, All, length, replicate, arith,
}
use spi_nnfront_end_common.Common.Words.{Bytes, pack_words}
use spi_nnfront_end_common.Dsg.Database.{
  Region, app_ptr_table_byte_size, get_total_regions_size, contents_size, get_memory_to_write,
}
use spi_nnfront_end_common.Dsg.Malloc.{malloc_size}
use spi_nnfront_end_common.Dsg.Load.{
  Write, Row, load_rows, load_core, rows_of, insert_row, get_region_pointers_and_content,
  load_and_check, empty_entry, TableEntry, table_words, appdata_magic_num, dse_version,
}
use spi_nnfront_end_common.Dsg.Table.{Fits}
use spi_nnfront_end_common.Dsg.Layout.{placed, placed_core}
use spi_nnfront_end_common.Dsg.Rows.{
  IsLoadable, content_write, region_writes, total_content, load_rows-writes, table_bytes, new_table,
}

-- A reference has a number of the table and a pointer.
abbrev pub IsLinked : ℕ × Option ℕ → Type 0
IsLinked reference = (reference.0 < 32) × ((p : ℕ) × (reference.1 ≡ some p) × (p < 2 ^ 32))

insert_row-IsLoadable :
    (row : Row) (rows : List Row)
    → IsLoadable row
    → All IsLoadable rows
    → All IsLoadable (insert_row row rows)
unfolding insert_row
insert_row-IsLoadable row [] l h = (l, tt)
insert_row-IsLoadable row (r ∷ rs) l h = elim (Bool-cases (leb row.region_num r.region_num)) [
  | inl e ↦ rw e (l, h)
  | inr e ↦ rw e (h.0, insert_row-IsLoadable row rs l h.1)
]

-- A row without content adds none and is not written.
insert_row-content :
    (row : Row) (rows : List Row)
    → row.content ≡ []
    → total_content (insert_row row rows) ≡ total_content rows
unfolding insert_row
insert_row-content row [] e = rw e refl
insert_row-content row (r ∷ rs) e = elim (Bool-cases (leb row.region_num r.region_num)) [
  | inl q ↦ rw (q, e) (omega arith)
  | inr q ↦ rw (q, insert_row-content row rs e) refl
]

no_content : (p : Option ℕ) (l : List Write) → content_write p [] ++ l ≡ l
no_content none l = refl
no_content (some p) l = refl

insert_row-writes :
    (row : Row) (rows : List Row)
    → row.content ≡ []
    → region_writes (insert_row row rows) ≡ region_writes rows
unfolding insert_row
insert_row-writes row [] e = rw (e, no_content row.pointer []) refl
insert_row-writes row (r ∷ rs) e = elim (Bool-cases (leb row.region_num r.region_num)) [
  | inl q ↦
      rw (q, e, no_content row.pointer (content_write r.pointer r.content ++ region_writes rs)) refl
  | inr q ↦ rw (q, insert_row-writes row rs e) refl
]

module _ (regions : List Region) where
  rows-content :
      (references : List (ℕ × Option ℕ))
      → (total_content (get_region_pointers_and_content references regions)
          ≡ total_content (rows_of regions))
        × (region_writes (get_region_pointers_and_content references regions)
            ≡ region_writes (rows_of regions))
  unfolding get_region_pointers_and_content
  rows-content [] = (refl, refl)
  rows-content (reference ∷ references) =
      let (same_total, same_writes) = rows-content references in
      (insert_row-content _ _ refl ∙ same_total, insert_row-writes _ _ refl ∙ same_writes)

  rows-IsLoadable :
      (references : List (ℕ × Option ℕ))
      → All IsLinked references
      → All IsLoadable (rows_of regions)
      → All IsLoadable (get_region_pointers_and_content references regions)
  unfolding get_region_pointers_and_content
  rows-IsLoadable [] l h = h
  rows-IsLoadable (reference ∷ references) ((low, linked), l) h =
      insert_row-IsLoadable _ _ (low, linked, refl, omega arith) (rows-IsLoadable references l h)

rows_of-content : (rs : List Region) → total_content (rows_of rs) ≡ contents_size rs
unfolding rows_of contents_size
rows_of-content [] = refl
rows_of-content (r ∷ rs) = ap (λ n. length r.content + n) (rows_of-content rs)

-- The writes follow each other without an overlap, from `lo` on and up to `hi`.
abbrev pub IsLaid : ℕ → List Write → ℕ → Type 0
IsLaid lo [] hi = lo ≤ hi
IsLaid lo (w ∷ ws) hi = (lo ≤ w.address) × IsLaid (w.address + length w.written) ws hi

IsLaid-from :
    (lo lo' : ℕ) (ws : List Write) (hi : ℕ) → lo ≤ lo' → IsLaid lo' ws hi → IsLaid lo ws hi
IsLaid-from lo lo' [] hi le h = omega arith
IsLaid-from lo lo' (w ∷ ws) hi le h = (omega arith, h.1)

content_write-IsLaid :
    (next size : ℕ) (content : Bytes) (ws : List Write) (hi : ℕ)
    → length content ≤ size
    → IsLaid (next + size) ws hi
    → IsLaid next (content_write (some next) content ++ ws) hi
content_write-IsLaid next size [] ws hi fits h =
    IsLaid-from next (next + size) ws hi (omega arith) h
content_write-IsLaid next size (b ∷ bs) ws hi fits h =
    (omega arith, IsLaid-from (next + length (b ∷ bs)) (next + size) ws hi (omega arith) h)

placed-IsLaid :
    (next : ℕ) (rs : List Region) (hi : ℕ)
    → All Fits rs
    → next + get_total_regions_size rs ≡ hi
    → IsLaid next (region_writes (rows_of (placed next rs))) hi
unfolding rows_of get_total_regions_size
placed-IsLaid next [] hi f e = omega arith
placed-IsLaid next (r ∷ rs) hi f e =
    content_write-IsLaid next r.size r.content _ hi f.0.0
      (placed-IsLaid (next + r.size) rs hi f.1 (omega arith))

placed-IsLoadable :
    (next : ℕ) (rs : List Region)
    → All Fits rs
    → All (λ r. r.region_num < 32) rs
    → next + get_total_regions_size rs < 2 ^ 32
    → All IsLoadable (rows_of (placed next rs))
unfolding rows_of get_total_regions_size
placed-IsLoadable next [] f n h = tt
placed-IsLoadable next (r ∷ rs) f n h = (
  (n.0, (next, refl, omega arith), f.0.1, omega arith),
  placed-IsLoadable (next + r.size) rs f.1 n.1 (omega arith),
)

contents_size-placed :
    (next : ℕ) (rs : List Region) → contents_size (placed next rs) ≡ contents_size rs
unfolding contents_size
contents_size-placed next [] = refl
contents_size-placed next (r ∷ rs) =
    ap (λ n. length r.content + n) (contents_size-placed (next + r.size) rs)

load_and_check-writes :
    (regions : List Region) (start : ℕ) (references : List (ℕ × Option ℕ)) (ws : List Write)
    (table : List TableEntry) (n : ℕ) (bytes : Bytes)
    → load_rows (get_region_pointers_and_content references regions) (replicate 32 empty_entry) 0
      ≡ (ws, ok (table, n))
    → pack_words (appdata_magic_num ∷ dse_version ∷ table_words table) ≡ ok bytes
    → (n + length bytes == get_memory_to_write regions) ≡ true
    → load_and_check (record { start_address = some start; regions = regions }) references
      ≡ (ws ++ record { address = start; written = bytes } ∷ [], ok tt)
unfolding load_and_check load_core
load_and_check-writes regions start references ws table n bytes loaded packed checked =
    rw (loaded, packed, checked)
      (ap (λ l. (l, ok tt)) (append-nil (ws ++ record { address = start; written = bytes } ∷ [])))

module _ (regions : List Region) (start : ℕ) (references : List (ℕ × Option ℕ)) where
  -- What a core's memory gets: the contents of its regions, each at its pointer, and the table.
  pub record IsLoaded : Type 0 where
    pub table : Bytes
    pub loaded : load_and_check (placed_core start regions) references ≡ (
      region_writes (rows_of (placed (start + app_ptr_table_byte_size) regions))
          ++ record { address = start; written = table } ∷ [],
      ok tt,
    )
    pub table_size : length table ≡ app_ptr_table_byte_size
    pub laid :
        IsLaid
          (start + app_ptr_table_byte_size)
          (region_writes (rows_of (placed (start + app_ptr_table_byte_size) regions)))
          (start + malloc_size regions)

  -- A core whose memory was set up in 32-bit addresses, with at most 32 regions that their contents
  -- fit, and with its references linked, loads without an exception, the final check included: the
  -- contents are written in order at the regions' pointers, none over another, behind the pointer
  -- table, which comes last, and all within the allocated size.
  pub load_and_check-IsLoaded :
      All Fits regions
      → All (λ r. r.region_num < 32) regions
      → All IsLinked references
      → start + malloc_size regions < 2 ^ 32
      → IsLoaded
  unfolding malloc_size get_memory_to_write
  load_and_check-IsLoaded fits low linked room =
      let first = start + app_ptr_table_byte_size in
      let rows = get_region_pointers_and_content references (placed first regions) in
      let (same_total, same_writes) = rows-content (placed first regions) references in
      let loadable =
        rows-IsLoadable (placed first regions) references linked
          (placed-IsLoadable first regions fits low (omega arith)) in
      let (table, rows_written, t) =
        load_rows-writes rows (replicate 32 empty_entry) 32 0 loadable new_table in
      let (bytes, packed, size) = table_bytes table t in
      let checked : (0 + total_content rows + length bytes
            == 392 + contents_size (placed first regions))
          ≡ true =
        (==_iff _ _).1 (omega (arith, same_total, rows_of-content (placed first regions), size)) in
      record {
        table = bytes;
        loaded =
            load_and_check-writes (placed first regions) start references (region_writes rows) table
              (0 + total_content rows) bytes rows_written packed checked
            ∙ ap (λ l. (l ++ record { address = start; written = bytes } ∷ [], ok tt)) same_writes;
        table_size = size;
        laid =
            placed-IsLaid first regions (start + (get_total_regions_size regions + 392)) fits
              (omega arith);
      }
