-- ===== src/Dsg/Fits.antt =====
-- Whatever calls a vertex makes, the content of each region fits it.
use spi_nnfront_end_common.Common.{
  ℕ, value_error, ◌%◌, ◌≡◌, refl, ◌⊎◌, inl, inr, false, not, ◌&&◌, Option, none, some, List, [],
  ◌∷◌, ◌++◌, ok, err, Error, Result-cases, not_implemented_error, ltb, ◌==◌, ==_iff, Bool-cases,
  ltb→le, length, All, raise_if, arith,
}
use spi_nnfront_end_common.Common.Words.{Bytes}
use spi_nnfront_end_common.Common.Sends.{Holds}
use spi_nnfront_end_common.Dsg.Database.{
  Region, insert_region, set_memory_region, get_region_size, set_region_content, reference_in_use,
}
use spi_nnfront_end_common.Dsg.Generator.{
  Generator, new_generator, rounded_up, reserve_memory_region, asserted, check_write_block,
  end_block, end_content, end_write_block, switch_write_focus, write_value, write_array,
  end_specification, Command, reserve, switch_focus, value, array, finish, command, commands,
}
use spi_nnfront_end_common.Dsg.Table.{
  Fits, IsOrdered, Kept, insert_region-Kept, set_region_content-Kept,
}

-- The focus, where there is one, is on a region of the table, with its size.
abbrev pub Focus : Generator → Type 0
Focus g =
    (g.size ≡ none)
    ⊎ ((n : ℕ) × (s : ℕ) × (g.region_num ≡ some n)
        × (g.size ≡ some s)
        × (get_region_size n g.regions ≡ ok s))

pub record IsValid (g : Generator) : Type 0 where
  pub ordered : IsOrdered 0 g.regions
  pub fits : All Fits g.regions
  pub focus : Focus g

-- The same with another table.
with_regions :
    (g : Generator) (regions : List Region)
    → IsValid g
    → Kept 0 g.regions regions
    → IsValid (record g { regions = regions })
with_regions g regions v (ordered, fits, sizes) = record {
  ordered = ordered;
  fits = fits;
  focus = elim v.focus [ inl e ↦ inl e | inr (n, s, e, e', at) ↦ inr (n, s, e, e', sizes n s at) ];
}

with_content :
    (g : Generator) (content : Option Bytes) → IsValid g → IsValid (record g { content = content })
with_content g content v = record { ordered = v.ordered; fits = v.fits; focus = v.focus }

rounded_up-whole : (size : ℕ) → rounded_up size % 4 ≡ 0
rounded_up-whole size = elim (Bool-cases (size % 4 == 0)) [
  | inl e ↦ rw e (ground arith)
  | inr e ↦ rw e (omega arith)
]

reserve-IsValid :
    (region size : ℕ) (reference : Option ℕ) (g : Generator)
    → IsValid g
    → Holds IsValid (reserve_memory_region region size reference g)
unfolding reserve_memory_region set_memory_region
reserve-IsValid region size reference g v =
    elim (Bool-cases (reference_in_use reference g.regions)) [
      | inl used ↦ rw used tt
      | inr free ↦ reserved free (Result-cases (insert_region new g.regions))
    ]
  where
    new : Region
    new = record {
      region_num = region;
      size = rounded_up size;
      reference_num = reference;
      content = [];
      pointer = none;
    }

    reserved :
        reference_in_use reference g.regions ≡ false
        → ((rs : List Region) × (insert_region new g.regions ≡ ok rs))
          ⊎ ((x : Error) × (insert_region new g.regions ≡ err x))
        → Holds IsValid (reserve_memory_region region size reference g)
    reserved free (inr (x, e)) = rw (free, e) tt
    reserved free (inl (rs, e)) =
        rw (free, e)
          (with_regions g rs v (
            rw e at (
              insert_region-Kept new 0 g.regions (omega arith)
                (omega arith, refl, rounded_up-whole size) v.ordered v.fits)))

end_block-IsValid :
    (content : Bytes) (g : Generator) → IsValid g → Holds IsValid (end_block content g)
unfolding end_block check_write_block
end_block-IsValid content g v = elim v.focus [
  | inl e ↦ rw e tt
  | inr (n, s, e, e', at) ↦ elim (Bool-cases (ltb s (length content))) [
    | inl long ↦ rw (e', long) tt
    | inr fits ↦ elim (Bool-cases (length content % 4 == 0)) [
      | inr odd ↦ rw (e', fits, odd) tt
      | inl whole ↦ elim (Result-cases (set_region_content n content g.regions)) [
        | inr (x, q) ↦ rw (e', fits, whole, e, q) tt
        | inl (rs, q) ↦
            let kept : Kept 0 g.regions rs = rw q at (
              set_region_content-Kept n content s 0 g.regions at (ltb→le s (length content) fits)
                ((==_iff _ _).0 whole) v.ordered v.fits) in
            simp (e', fits, whole, e, q)
              (record {
                ordered = kept.0;
                fits = kept.1;
                focus = inr (n, s, refl, refl, kept.2 n s at);
              })
      ]
    ]
  ]
]

end_content-IsValid :
    (content : Option Bytes) (g : Generator) → IsValid g → Holds IsValid (end_content content g)
end_content-IsValid none g v = v
end_content-IsValid (some []) g v = v
end_content-IsValid (some (b ∷ bs)) g v = end_block-IsValid (b ∷ bs) g v

end_write_block-IsValid : (g : Generator) → IsValid g → Holds IsValid (end_write_block g)
unfolding end_write_block
end_write_block-IsValid g v = elim (Result-cases (end_content g.content g)) [
  | inr (x, e) ↦ rw e tt
  | inl (g', e) ↦ rw e (with_content g' (some []) (rw e at (end_content-IsValid g.content g v)))
]

switch_write_focus-IsValid :
    (n : ℕ) (g : Generator) → IsValid g → Holds IsValid (switch_write_focus n g)
unfolding switch_write_focus
switch_write_focus-IsValid n g v = elim (Result-cases (end_write_block g)) [
  | inr (x, e) ↦ rw e tt
  | inl (g', e) ↦
      let v' : IsValid g' = rw e at (end_write_block-IsValid g v) in
      elim (Result-cases (get_region_size n g'.regions)) [
        | inr (x, q) ↦ rw (e, q) tt
        | inl (s, q) ↦ elim (Bool-cases (s == 0)) [
          | inl zero_size ↦ rw (e, q, zero_size) tt
          | inr some_size ↦
              rw (e, q, some_size)
                (record { ordered = v'.ordered; fits = v'.fits; focus = inr (n, s, refl, refl, q) })
        ]
      ]
]

command-IsValid : (c : Command) (g : Generator) → IsValid g → Holds IsValid (command c g)
unfolding command write_value write_array end_specification
command-IsValid (reserve region size reference) g v = reserve-IsValid region size reference g v
command-IsValid (switch_focus region) g v = switch_write_focus-IsValid region g v
command-IsValid finish g v = end_write_block-IsValid g v
command-IsValid (value as_bytes type_size) g v = elim (Result-cases (asserted g.content)) [
  | inr (x, e) ↦ rw e tt
  | inl (content, e) ↦
      elim (Result-cases (raise_if (ltb type_size (length as_bytes)) value_error)) [
        | inr (x, q) ↦ rw (e, q) tt
        | inl (u, q) ↦
            elim (Result-cases (
              raise_if (not (length content % 4 == 0) && not (length as_bytes % type_size == 0))
                not_implemented_error)) [
                  | inr (x, q') ↦ rw (e, q, q') tt
                  | inl (u', q') ↦ rw (e, q, q') (with_content g (some (content ++ as_bytes)) v)
                ]
      ]
]
command-IsValid (array encoded) g v = elim (Result-cases (asserted g.content)) [
  | inr (x, e) ↦ rw e tt
  | inl (content, e) ↦
      elim (Result-cases (raise_if (not (length content % 4 == 0)) not_implemented_error)) [
        | inr (x, q) ↦ rw (e, q) tt
        | inl (u, q) ↦
            elim (Result-cases (raise_if (not (length encoded % 4 == 0)) not_implemented_error)) [
              | inr (x, q') ↦ rw (e, q, q') tt
              | inl (u', q') ↦ rw (e, q, q') (with_content g (some (content ++ encoded)) v)
            ]
      ]
]

commands-kept : (cs : List Command) (g : Generator) → IsValid g → Holds IsValid (commands cs g)
unfolding commands
commands-kept [] g v = v
commands-kept (c ∷ cs) g v = elim (Result-cases (command c g)) [
  | inr (x, e) ↦ rw e tt
  | inl (g', e) ↦ rw e (commands-kept cs g' (rw e at (command-IsValid c g v)))
]

-- After any sequence of reserving, switching, writing and finishing that does not raise, each region
-- of the core is of whole words and its content is of whole words and fits it, the regions are in the
-- order of their numbers, no number twice, and the focus is on one of them.
pub commands-IsValid :
    (cs : List Command) (g : Generator) → commands cs (new_generator []) ≡ ok g → IsValid g
commands-IsValid cs g e =
    rw e at
      (commands-kept cs (new_generator []) (record { ordered = tt; fits = tt; focus = inl refl }))
