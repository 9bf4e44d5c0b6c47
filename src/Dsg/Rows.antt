-- ===== src/Dsg/Rows.antt =====
-- What loading the rows of a core writes.
use spi_nnfront_end_common.Common.{
  ℕ, zero, suc, ◌+◌, ◌*◌, ◌/◌, ◌%◌, ◌^◌, ◌≤◌, ◌<◌, ◌≡◌, refl, ap, ◌∙◌, inl, inr, false, Option,
  none, some, List, [], ◌∷◌, ◌++◌, ok, leb, ◌==◌, ==_iff, Bool-cases, All, length, replicate, arith,
}
use spi_nnfront_end_common.Common.Words.{
  Bytes, AllWords, unpack_words, pack_words, words_bytes, pack_words-ok, length-words_bytes,
}
use spi_nnfront_end_common.Dsg.Load.{
  Write, TableEntry, empty_entry, sum, checksum_of, put, entry_at, n_words_of, Row, load_content,
  load_rows, table_words, appdata_magic_num, dse_version,
}

-- A row with a number of the table, a known pointer and content of whole words.
abbrev pub IsLoadable : Row → Type 0
IsLoadable row =
    (row.region_num < 32)
    × ((p : ℕ) × (row.pointer ≡ some p) × (p < 2 ^ 32))
    × (length row.content % 4 ≡ 0)
    × (length row.content < 2 ^ 32)

abbrev pub content_write : Option ℕ → Bytes → List Write
content_write none content = []
content_write (some p) [] = []
content_write (some p) (b ∷ bs) = record { address = p; written = b ∷ bs } ∷ []

-- The writes of the rows that have content.
abbrev pub region_writes : List Row → List Write
region_writes [] = []
region_writes (row ∷ rows) = content_write row.pointer row.content ++ region_writes rows

abbrev pub total_content : List Row → ℕ
total_content [] = 0
total_content (row ∷ rows) = length row.content + total_content rows

-- Whole words can be read.
unpack_words_total :
    (n : ℕ) (bytes : Bytes) → 4 * n ≤ length bytes → (ws : List ℕ) × (unpack_words n bytes ≡ ok ws)
unfolding unpack_words
unpack_words_total zero bytes h = ([], refl)
unpack_words_total (suc n) (a ∷ b ∷ c ∷ d ∷ rest) h =
    let (ws, e) = unpack_words_total n rest (omega arith) in
    ((a + 2 ^ 8 * b + 2 ^ 16 * c + 2 ^ 24 * d) ∷ ws, rw e refl)
unpack_words_total (suc n) [] h = absurd (omega arith)
unpack_words_total (suc n) (a ∷ []) h = absurd (omega arith)
unpack_words_total (suc n) (a ∷ b ∷ []) h = absurd (omega arith)
unpack_words_total (suc n) (a ∷ b ∷ c ∷ []) h = absurd (omega arith)

checksum_of_total :
    (content : Bytes)
    → length content % 4 ≡ 0
    → (c : ℕ) × (checksum_of content ≡ ok c) × (c < 2 ^ 32)
unfolding checksum_of
checksum_of_total content h =
    let (ws, e) = unpack_words_total (length content / 4) content (omega arith) in
    (sum ws % 2 ^ 32, rw ((==_iff (length content % 4) 0).1 h, checksum_of, e) refl, omega arith)

abbrev IsEntry : TableEntry → Type 0
IsEntry e = (e.pointer < 2 ^ 32) × (e.checksum < 2 ^ 32) × (e.n_words < 2 ^ 32)

n_words_of-lt : (n : ℕ) → n < 2 ^ 32 → n_words_of n < 2 ^ 32
n_words_of-lt n h = elim (Bool-cases (n % 4 == 0)) [
  | inl e ↦ rw e (omega arith)
  | inr e ↦ rw e (omega arith)
]

load_content-writes :
    (old : TableEntry) (p : ℕ) (content : Bytes)
    → IsEntry old
    → p < 2 ^ 32
    → length content % 4 ≡ 0
    → length content < 2 ^ 32
    → (e : TableEntry) × (load_content old p content ≡ (content_write (some p) content, ok e))
      × IsEntry e
unfolding load_content
load_content-writes old p [] bounded wide whole short = (_, refl, (wide, bounded.1, bounded.2))
load_content-writes old p (b ∷ bs) bounded wide whole short =
    let (c, e, lt) = checksum_of_total (b ∷ bs) whole in
    (_, rw e refl, (wide, lt, n_words_of-lt (length (b ∷ bs)) short))

entry_at-IsEntry : (n : ℕ) (es : List TableEntry) → All IsEntry es → IsEntry (entry_at n es)
entry_at-IsEntry n [] a = (omega arith, omega arith, omega arith)
entry_at-IsEntry zero (e ∷ es) a = a.0
entry_at-IsEntry (suc n) (e ∷ es) a = entry_at-IsEntry n es a.1

length-put : (n : ℕ) (e : TableEntry) (es : List TableEntry) → length (put n e es) ≡ length es
length-put n e [] = refl
length-put zero e (d ∷ es) = refl
length-put (suc n) e (d ∷ es) = ap suc (length-put n e es)

put-All :
    (n : ℕ) (e : TableEntry) (es : List TableEntry)
    → IsEntry e
    → All IsEntry es
    → All IsEntry (put n e es)
put-All n e [] h a = tt
put-All zero e (d ∷ es) h a = (h, a.1)
put-All (suc n) e (d ∷ es) h a = (a.0, put-All n e es h a.1)

-- The table that is written behind the header.
pub record IsTableOf (size : ℕ) (table : List TableEntry) : Type 0 where
  pub entries : All IsEntry table
  pub sized : length table ≡ size

pub load_rows-writes :
    (rows : List Row) (table : List TableEntry) (size written : ℕ)
    → All IsLoadable rows
    → IsTableOf size table
    → (table' : List TableEntry) × (load_rows rows table written
        ≡ (region_writes rows, ok (table', written + total_content rows)))
      × IsTableOf size table'
unfolding load_rows
load_rows-writes [] table size written h t =
    (table, ap (λ n. ([], ok (table, n))) {x = written} (omega arith), t)
load_rows-writes (row ∷ rows) table size written ((low, (p, known, wide), whole, short), h) t =
    let (e, loaded, entry) =
      load_content-writes (entry_at row.region_num table) p row.content
        (entry_at-IsEntry row.region_num table t.entries) wide whole short in
    let (table', rest, t') =
      load_rows-writes rows (put row.region_num e table) size (written + length row.content) h
        (record {
          entries = put-All row.region_num e table entry t.entries;
          sized = length-put row.region_num e table ∙ t.sized;
        }) in
    let in_table : leb 32 row.region_num ≡ false = ground arith in
    (
      table',
      rw (in_table, known, loaded, rest)
          (ap (λ n. (content_write (some p) row.content ++ region_writes rows, ok (table', n)))
            {x = written + length row.content + total_content rows} (omega arith)),
      t',
    )

table_words-AllWords : (table : List TableEntry) → All IsEntry table → AllWords (table_words table)
table_words-AllWords [] h = tt
table_words-AllWords (e ∷ es) h = (h.0.0, (h.0.1, (h.0.2, table_words-AllWords es h.1)))

length-table_words : (table : List TableEntry) → length (table_words table) ≡ 3 * length table
length-table_words [] = refl
length-table_words (e ∷ es) = omega (arith, length-table_words es)

-- The table and its header, as the bytes that are written.
pub table_bytes :
    (table : List TableEntry)
    → IsTableOf 32 table
    → (bytes : Bytes) × (pack_words (appdata_magic_num ∷ dse_version ∷ table_words table)
        ≡ ok bytes)
      × (length bytes ≡ 392)
table_bytes table t = (
  words_bytes (appdata_magic_num ∷ dse_version ∷ table_words table),
  pack_words-ok (appdata_magic_num ∷ dse_version ∷ table_words table)
      (omega arith, (omega arith, table_words-AllWords table t.entries)),
  omega (
    arith,
    length-words_bytes (appdata_magic_num ∷ dse_version ∷ table_words table),
    length-table_words table,
    t.sized,
  ),
)

pub new_table : IsTableOf 32 (replicate 32 empty_entry)
new_table = record { entries = all_empty 32; sized = refl }
  where
    all_empty : (n : ℕ) → All IsEntry (replicate n empty_entry)
    all_empty zero = tt
    all_empty (suc n) = ((omega arith, omega arith, omega arith), all_empty n)
