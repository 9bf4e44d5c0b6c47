-- ===== src/Dsg/Table.antt =====
-- What inserting a region and setting its content keep of the table.
use spi_nnfront_end_common.Common.{
  ℕ, suc, ◌%◌, ◌≤◌, ◌<◌, ◌≡◌, refl, sym, ◌∙◌, inl, inr, false, List, [], ◌∷◌, ok, err, Error,
  Result-cases, ds_database_exception, ltb, ◌==◌, Bool-cases, length, All, arith,
}
use spi_nnfront_end_common.Common.Words.{Bytes}
use spi_nnfront_end_common.Common.Sends.{Holds}
use spi_nnfront_end_common.Dsg.Database.{Region, insert_region, get_region_size, set_region_content}

-- A region of whole words whose content is of whole words and no longer.
abbrev pub Fits : Region → Type 0
Fits r = (length r.content ≤ r.size) × (length r.content % 4 ≡ 0) × (r.size % 4 ≡ 0)

-- The table in the order of its key.
abbrev pub IsOrdered : ℕ → List Region → Type 0
IsOrdered lo [] = Unit {0}
IsOrdered lo (r ∷ rs) = (lo ≤ r.region_num) × IsOrdered (suc r.region_num) rs

pub record IsTable (regions : List Region) : Type 0 where
  pub ordered : IsOrdered 0 regions
  pub fits : All Fits regions

get_region_size-below :
    (n lo : ℕ) (rs : List Region)
    → IsOrdered lo rs
    → n < lo
    → get_region_size n rs ≡ err ds_database_exception
unfolding get_region_size
get_region_size-below n lo [] h lt = refl
get_region_size-below n lo (r ∷ rs) h lt =
    let other : (n == r.region_num) ≡ false = ground arith in
    rw other (get_region_size-below n (suc r.region_num) rs h.1 (omega arith))

-- What a change of the table keeps: the order, that contents fit, and the sizes of its regions.
abbrev pub Kept : ℕ → List Region → List Region → Type 0
Kept lo rs rs' =
    IsOrdered lo rs'
    × All Fits rs'
    × ((n s : ℕ) → get_region_size n rs ≡ ok s → get_region_size n rs' ≡ ok s)

Kept-cons :
    (lo : ℕ) (r r' : Region) (rs rs' : List Region)
    → lo ≤ r.region_num
    → r'.region_num ≡ r.region_num
    → r'.size ≡ r.size
    → Fits r'
    → Kept (suc r.region_num) rs rs'
    → Kept lo (r ∷ rs) (r' ∷ rs')
unfolding get_region_size
Kept-cons lo r r' rs rs' low same_num same_size fits (ordered, all_fit, sizes) = (
  (omega arith, rw same_num ordered),
  (fits, all_fit),
  λ n s e.
      rw (same_num, same_size)
        (elim (Bool-cases (n == r.region_num)) [
          | inl here ↦ rw here (rw here at e)
          | inr other ↦ rw other (sizes n s (rw other at e))
        ]),
)

ok_inj : {a b : ℕ} → ok a ≡ ok b → a ≡ b
ok_inj e = cc

err≢ok : {x : Error} {a : ℕ} → ¬ (err x ≡ ok a)
err≢ok e = cc

-- A region in front of all others hides none of them.
get_region_size-front :
    (region : Region) (rs : List Region) (n s : ℕ)
    → IsOrdered (suc region.region_num) rs
    → get_region_size n rs ≡ ok s
    → get_region_size n (region ∷ rs) ≡ ok s
unfolding get_region_size
get_region_size-front region rs n s h e = elim (Bool-cases (n == region.region_num)) [
  | inl here ↦
      absurd
        (err≢ok (sym (get_region_size-below n (suc region.region_num) rs h (ground arith)) ∙ e))
  | inr other ↦ rw other e
]

pub insert_region-Kept :
    (region : Region) (lo : ℕ) (rs : List Region)
    → lo ≤ region.region_num
    → Fits region
    → IsOrdered lo rs
    → All Fits rs
    → Holds (Kept lo rs) (insert_region region rs)
unfolding insert_region
insert_region-Kept region lo [] low fits h f =
    ((low, tt), (fits, tt), λ n s e. get_region_size-front region [] n s tt e)
insert_region-Kept region lo (r ∷ rs) low fits h f =
    elim (Bool-cases (ltb region.region_num r.region_num)) [
      | inl before ↦ rw before (
        (low, (ground arith, h.1)),
        (fits, f),
        λ n s e. get_region_size-front region (r ∷ rs) n s (ground arith, h.1) e,
      )
      | inr after ↦ elim (Bool-cases (region.region_num == r.region_num)) [
        | inl taken ↦ rw (after, taken) tt
        | inr free ↦ elim (Result-cases (insert_region region rs)) [
          | inr (x, e) ↦ rw (after, free, e) tt
          | inl (rs', e) ↦
              rw (after, free, e)
                (Kept-cons lo r r rs rs' h.0 refl refl f.0 (
                  rw e at
                    (insert_region-Kept region (suc r.region_num) rs (ground arith) fits h.1 f.1)))
        ]
      ]
    ]

pub set_region_content-Kept :
    (n : ℕ) (content : Bytes) (size lo : ℕ) (rs : List Region)
    → get_region_size n rs ≡ ok size
    → length content ≤ size
    → length content % 4 ≡ 0
    → IsOrdered lo rs
    → All Fits rs
    → Holds (Kept lo rs) (set_region_content n content rs)
unfolding set_region_content get_region_size
set_region_content-Kept n content size lo [] e fits whole h f = tt
set_region_content-Kept n content size lo (r ∷ rs) e fits whole h f =
    elim (Bool-cases (n == r.region_num)) [
      | inl here ↦ elim (Bool-cases (length r.content == 0)) [
        | inr written ↦ rw (here, written) tt
        | inl empty ↦
            rw (here, empty)
              (Kept-cons lo r (record r { content = content }) rs rs h.0 refl refl
                (omega (arith, ok_inj (rw here at e)), whole, f.0.2) (h.1, f.1, λ m s q. q))
      ]
      | inr other ↦ elim (Result-cases (set_region_content n content rs)) [
        | inr (x, q) ↦ rw (other, q) tt
        | inl (rs', q) ↦
            rw (other, q)
              (Kept-cons lo r r rs rs' h.0 refl refl f.0 (
                rw q at (
                  set_region_content-Kept n content size (suc r.region_num) rs (rw other at e) fits
                    whole h.1 f.1)))
      ]
    ]
