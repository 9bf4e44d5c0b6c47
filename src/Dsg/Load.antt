-- ===== src/Dsg/Load.antt =====
-- Loading a core's regions (spinn_front_end_common/interface/interface_functions/
-- load_data_specification.py). What is written is sent, as an
-- address with its bytes.
use spi_nnfront_end_common.Common.{
  ℕ, zero, suc, ◌+◌, ◌-◌, ◌/◌, ◌%◌, ◌^◌, not, Option, none, some, List, [], ◌∷◌, Result, ok, err,
  true, false, value_error, index_error, type_error, data_spec_exception, leb, ◌==◌, if◌then◌else◌,
  length, replicate, raise_if,
}
use spi_nnfront_end_common.Common.Words.{Bytes, pack_words, unpack_words}
use spi_nnfront_end_common.Common.Sends.{Send, pure, lift, send, ◌>>=◌, ◌>>◌}
use spi_nnfront_end_common.Dsg.Malloc.{Core}
use spi_nnfront_end_common.Dsg.Database.{Region, get_memory_to_write}

abbrev pub appdata_magic_num : ℕ
appdata_magic_num = 0xAD130AD6

abbrev pub dse_version : ℕ
dse_version = 0x00010000

abbrev pub max_mem_regions : ℕ
max_mem_regions = 32

pub record Write : Type 0 where
  pub address : ℕ
  pub written : Bytes

-- A row of the pointer table.
pub record TableEntry : Type 0 where
  pub pointer : ℕ
  pub checksum : ℕ
  pub n_words : ℕ

abbrev pub empty_entry : TableEntry
empty_entry = record { pointer = 0; checksum = 0; n_words = 0 }

abbrev pub sum : List ℕ → ℕ
sum [] = 0
sum (n ∷ ns) = n + sum ns

-- `numpy.sum(n_data.view("uint32"))` to 32 bits; a view needs whole words.
unfoldable pub checksum_of : Bytes → Result ℕ
checksum_of content = elim (length content % 4 == 0) [
  | false ↦ err value_error
  | true ↦ elim (unpack_words (length content / 4) content) [
    | err e ↦ err e
    | ok words ↦ ok (sum words % 2 ^ 32)
  ]
]

-- `pointer_table[n] = entry`
abbrev pub put : ℕ → TableEntry → List TableEntry → List TableEntry
put n entry [] = []
put zero entry (e ∷ es) = entry ∷ es
put (suc n) entry (e ∷ es) = e ∷ put n entry es

-- `pointer_table[n]`
abbrev pub entry_at : ℕ → List TableEntry → TableEntry
entry_at n [] = empty_entry
entry_at zero (e ∷ es) = e
entry_at (suc n) (e ∷ es) = entry_at n es

-- "n_bytes / BYTES_PER_WORD" of the bytes rounded up to words
abbrev pub n_words_of : ℕ → ℕ
n_words_of n_bytes = if n_bytes % 4 == 0 then n_bytes / 4 else (n_bytes + (4 - n_bytes % 4)) / 4

-- A row of `get_region_pointers_and_content`. Empty content is none.
pub record Row : Type 0 where
  pub region_num : ℕ
  pub pointer : Option ℕ
  pub content : Bytes

abbrev pub known_pointer : Option ℕ → Result ℕ
known_pointer none = err data_spec_exception
known_pointer (some p) = ok p

-- What is done with a region's pointer and content, and its entry in the table.
unfoldable pub load_content : TableEntry → ℕ → Bytes → Send Write TableEntry
load_content entry pointer [] = pure (record entry { pointer = pointer })
load_content entry pointer (b ∷ bs) = do
  send (record { address = pointer; written = b ∷ bs })
  checksum ← lift (checksum_of (b ∷ bs))
  pure (record { pointer = pointer; checksum = checksum; n_words = n_words_of (length (b ∷ bs)) })

-- The loop over the rows: the table and `written`.
unfoldable pub load_rows : List Row → List TableEntry → ℕ → Send Write (List TableEntry × ℕ)
load_rows [] table written = pure (table, written)
load_rows (row ∷ rows) table written = do
  lift (raise_if (leb max_mem_regions row.region_num) index_error)
  pointer ← lift (known_pointer row.pointer)
  entry ← load_content (entry_at row.region_num table) pointer row.content
  load_rows rows (put row.region_num entry table) (written + length row.content)

abbrev pub table_words : List TableEntry → List ℕ
table_words [] = []
table_words (e ∷ es) = e.pointer ∷ e.checksum ∷ e.n_words ∷ table_words es

abbrev pub known_address : Option ℕ → Result ℕ
known_address none = err type_error
known_address (some a) = ok a

-- `__python_load_core`: the number of bytes written.
unfoldable pub load_core : Option ℕ → List Row → Send Write ℕ
load_core start_address rows = do
  loaded ← load_rows rows (replicate max_mem_regions empty_entry) 0
  base_address ← lift (known_address start_address)
  to_write ← lift (pack_words (appdata_magic_num ∷ dse_version ∷ table_words loaded.0))
  send (record { address = base_address; written = to_write })
  pure (loaded.1 + length to_write)

unfoldable pub rows_of : List Region → List Row
rows_of [] = []
rows_of (r ∷ rs) =
    record { region_num = r.region_num; pointer = r.pointer; content = r.content } ∷ rows_of rs

unfoldable pub insert_row : Row → List Row → List Row
insert_row row [] = row ∷ []
insert_row row (r ∷ rs) =
    let rest = insert_row row rs in
    if leb row.region_num r.region_num then row ∷ r ∷ rs else r ∷ rest

-- `get_region_pointers_and_content`: the core's regions, and its references to regions of the chip's
-- cores with the pointers that those have.
unfoldable pub get_region_pointers_and_content : List (ℕ × Option ℕ) → List Region → List Row
get_region_pointers_and_content [] regions = rows_of regions
get_region_pointers_and_content (reference ∷ references) regions =
    insert_row (record { region_num = reference.0; pointer = reference.1; content = [] })
      (get_region_pointers_and_content references regions)

-- The core's part of `__python_load`, with the check of what was written.
unfoldable pub load_and_check : Core → List (ℕ × Option ℕ) → Send Write (Unit {0})
load_and_check core references = do
  written ← load_core core.start_address (get_region_pointers_and_content references core.regions)
  lift (raise_if (not (written == get_memory_to_write core.regions)) data_spec_exception)
