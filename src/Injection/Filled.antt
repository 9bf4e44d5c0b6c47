-- ===== src/Injection/Filled.antt =====
-- What filling puts in the region of keys to send.
use spi_nnfront_end_common.Common.{
  ==_cases, ℕ, zero, suc, ◌+◌, ◌<◌, ◌≡◌, refl, sym, ap, ◌∙◌, inl, inr, Option, some, Option-cases,
  List, [], ◌∷◌, ◌++◌, append_assoc, append-nil, ok, ltb, ◌==◌, ==_iff, ==_refl, if◌then◌else◌,
  Bool-cases, length, get_elem?, drop, drop_all, arith,
}
use spi_nnfront_end_common.Common.Maps.{lookup, lookup-assign}
use spi_nnfront_end_common.Buffers.Region.{BufferedSendingRegion, insort, add_key, add_keys}
use spi_nnfront_end_common.Buffers.Pending.{keys_at}
use spi_nnfront_end_common.Injection.Source.{
  is_in_range, sorted_times, add_ticks, add_atoms, add_ticks_for_all,
}
use spi_nnfront_end_common.Injection.Rates.{count}

keys_at-add_key :
    (t key : ℕ) (r : BufferedSendingRegion) (s : ℕ)
    → keys_at (add_key t key r).buffer s ≡ keys_at r.buffer s ++ (if s == t then key ∷ [] else [])
unfolding add_key
keys_at-add_key t key r s = elim (Option-cases (lookup t r.buffer)) [
  | inl e ↦ elim (==_cases s t) [
    | inl (e', same) ↦ rw (e, lookup-assign s t (key ∷ []) r.buffer, same) (rw (e', e) refl)
    | inr other ↦ rw (e, lookup-assign s t (key ∷ []) r.buffer, other) (sym (append-nil _))
  ]
  | inr (keys, e) ↦ elim (==_cases s t) [
    | inl (e', same) ↦ rw (e, lookup-assign s t (keys ++ key ∷ []) r.buffer, same) (rw (e', e) refl)
    | inr other ↦ rw (e, lookup-assign s t (keys ++ key ∷ []) r.buffer, other) (sym (append-nil _))
  ]
]

keys_at-add_keys :
    (t : ℕ) (keys : List ℕ) (r : BufferedSendingRegion) (s : ℕ)
    → keys_at (add_keys t keys r).buffer s ≡ keys_at r.buffer s ++ (if s == t then keys else [])
unfolding add_keys
keys_at-add_keys t [] r s = elim (Bool-cases (s == t)) [
  | inl e ↦ rw e (sym (append-nil _))
  | inr e ↦ rw e (sym (append-nil _))
]
keys_at-add_keys t (key ∷ keys) r s =
    keys_at-add_keys t keys (add_key t key r) s
    ∙ ap (λ l. l ++ (if s == t then keys else [])) (keys_at-add_key t key r s)
    ∙ append_assoc (keys_at r.buffer s) (if s == t then key ∷ [] else [])
        (if s == t then keys else [])
    ∙ ap (λ l. keys_at r.buffer s ++ l)
        (elim (Bool-cases (s == t)) [ inl e ↦ rw e refl | inr e ↦ rw e refl ])

-- The keys, where the time step is in the range.
abbrev pub ranged : ℕ → ℕ → Option ℕ → List ℕ → List ℕ
ranged t first end_step keys = if is_in_range t first end_step then keys else []

-- So many copies of the keys.
abbrev pub times : ℕ → List ℕ → List ℕ
times zero keys = []
times (suc n) keys = keys ++ times n keys

-- One tick of the loop, with its keys.
ranged-times :
    (t tick first : ℕ) (end_step : Option ℕ) (keys ticks : List ℕ)
    → (if is_in_range tick first end_step then (if t == tick then keys else []) else [])
        ++ ranged t first end_step (times (count t ticks) keys)
      ≡ ranged t first end_step (times (count t (tick ∷ ticks)) keys)
unfolding count
ranged-times t tick first end_step keys ticks = elim (Bool-cases (t == tick)) [
  | inl same ↦
      let e : tick ≡ t = sym ((==_iff t tick).0 same) in
      let c : 1 + count t ticks ≡ suc (count t ticks) = omega arith in
      elim (Bool-cases (is_in_range t first end_step)) [
        | inl inside ↦ rw (e, ==_refl t, inside, c) refl
        | inr outside ↦ rw (e, ==_refl t, outside) refl
      ]
  | inr other ↦
      let c : 0 + count t ticks ≡ count t ticks = omega arith in
      elim (Bool-cases (is_in_range tick first end_step)) [
        | inl inside ↦ rw (other, inside, c) refl
        | inr outside ↦ rw (other, outside, c) refl
      ]
]

keys_at_one_tick :
    (first : ℕ) (end_step : Option ℕ) (keys : List ℕ) (tick : ℕ) (r : BufferedSendingRegion) (t : ℕ)
    → keys_at (if is_in_range tick first end_step then add_keys tick keys r else r).buffer t
      ≡ keys_at r.buffer t
        ++ (if is_in_range tick first end_step then (if t == tick then keys else []) else [])
keys_at_one_tick first end_step keys tick r t =
    elim (Bool-cases (is_in_range tick first end_step)) [
      | inl e ↦ rw e (keys_at-add_keys tick keys r t)
      | inr e ↦ rw e (sym (append-nil (keys_at r.buffer t)))
    ]

keys_at-add_ticks_for_all :
    (first : ℕ) (end_step : Option ℕ) (keys ticks : List ℕ) (r : BufferedSendingRegion) (t : ℕ)
    → keys_at (add_ticks_for_all first end_step keys ticks r).buffer t
      ≡ keys_at r.buffer t ++ ranged t first end_step (times (count t ticks) keys)
unfolding add_ticks_for_all count
keys_at-add_ticks_for_all first end_step keys [] r t =
    elim (Bool-cases (is_in_range t first end_step)) [
      | inl e ↦ rw e (sym (append-nil _))
      | inr e ↦ rw e (sym (append-nil _))
    ]
keys_at-add_ticks_for_all first end_step keys (tick ∷ ticks) r t =
    keys_at-add_ticks_for_all first end_step keys ticks
      (if is_in_range tick first end_step then add_keys tick keys r else r) t
    ∙ ap (λ l. l ++ ranged t first end_step (times (count t ticks) keys))
        (keys_at_one_tick first end_step keys tick r t)
    ∙ append_assoc (keys_at r.buffer t) _ _
    ∙ ap (λ l. keys_at r.buffer t ++ l) (ranged-times t tick first end_step keys ticks)

pub add_ticks-for_all :
    (first : ℕ) (end_step : Option ℕ) (key : ℕ) (ticks : List ℕ) (r : BufferedSendingRegion)
    → add_ticks first end_step key ticks r ≡ add_ticks_for_all first end_step (key ∷ []) ticks r
unfolding add_ticks add_ticks_for_all add_keys
add_ticks-for_all first end_step key [] r = refl
add_ticks-for_all first end_step key (tick ∷ ticks) r =
    add_ticks-for_all first end_step key ticks
      (if is_in_range tick first end_step then add_key tick key r else r)

count-insort : (t s : ℕ) (ts : List ℕ) → count t (insort s ts) ≡ count t (s ∷ ts)
unfolding count insort
count-insort t s [] = refl
count-insort t s (u ∷ ts) = elim (Bool-cases (ltb s u)) [
  | inl e ↦ rw e refl
  | inr e ↦ rw e (omega (arith, count-insort t s ts))
]

pub count-sorted_times : (t : ℕ) (ts : List ℕ) → count t (sorted_times ts) ≡ count t ts
unfolding count sorted_times
count-sorted_times t [] = refl
count-sorted_times t (s ∷ ts) =
    omega (arith, count-insort t s (sorted_times ts), count-sorted_times t ts)

-- All atoms with the same times.
pub keys_at-same_times :
    (first : ℕ) (end_step : Option ℕ) (keys ts : List ℕ) (r : BufferedSendingRegion) (t : ℕ)
    → keys_at (add_ticks_for_all first end_step keys (sorted_times ts) r).buffer t
      ≡ keys_at r.buffer t ++ ranged t first end_step (times (count t ts) keys)
keys_at-same_times first end_step keys ts r t =
    keys_at-add_ticks_for_all first end_step keys (sorted_times ts) r t
    ∙ ap (λ n. keys_at r.buffer t ++ ranged t first end_step (times n keys))
        (count-sorted_times t ts)

-- The keys of the atoms in their order, each as often as its times say.
abbrev pub atom_keys : ℕ → List ℕ → List (List ℕ) → List ℕ
atom_keys t keys [] = []
atom_keys t [] (ts ∷ tss) = []
atom_keys t (key ∷ keys) (ts ∷ tss) = times (count t ts) (key ∷ []) ++ atom_keys t keys tss

ranged-append :
    (t first : ℕ) (end_step : Option ℕ) (ks ls : List ℕ)
    → ranged t first end_step ks ++ ranged t first end_step ls ≡ ranged t first end_step (ks ++ ls)
ranged-append t first end_step ks ls = elim (Bool-cases (is_in_range t first end_step)) [
  | inl e ↦ rw e refl
  | inr e ↦ rw e refl
]

drop-at {ℓ} :
    {A : Type ℓ} (xs : List A) (i : ℕ)
    → i < length xs
    → (a : A) × (get_elem? xs i ≡ some a) × (drop i xs ≡ a ∷ drop (i + 1) xs)
drop-at [] i h = absurd (omega arith)
drop-at (x ∷ xs) zero h = (x, refl, refl)
drop-at (x ∷ xs) (suc i) h =
    let (a, at, rest) = drop-at xs i (omega arith) in
    (a, at, rest ∙ ap (λ k. a ∷ drop k (x ∷ xs)) {x = suc (i + 1)} {y = suc i + 1} (omega arith))

-- The atoms from one on, whose keys and times are what is left of all.
pub add_atoms_lem :
    (first : ℕ) (end_step : Option ℕ) (keys : List ℕ) (tss : List (List ℕ)) (n atom : ℕ)
    (r : BufferedSendingRegion)
    → length keys ≡ atom + n
    → length tss ≡ atom + n
    → (r' : BufferedSendingRegion) × (add_atoms first end_step keys tss n atom r ≡ ok r')
      × ((t : ℕ)
          → keys_at r'.buffer t
            ≡ keys_at r.buffer t
              ++ ranged t first end_step (atom_keys t (drop atom keys) (drop atom tss)))
unfolding add_atoms
add_atoms_lem first end_step keys tss zero atom r p q =
    let none_left = drop_all atom tss (omega arith) in
    (
      r,
      refl,
      λ t. rw none_left (elim (Bool-cases (is_in_range t first end_step)) [
        | inl e ↦ rw e (sym (append-nil (keys_at r.buffer t)))
        | inr e ↦ rw e (sym (append-nil (keys_at r.buffer t)))
      ]),
    )
add_atoms_lem first end_step keys tss (suc n) atom r p q =
    let (key, at_key, keys_left) = drop-at keys atom (omega arith) in
    let (ts, at_ts, tss_left) = drop-at tss atom (omega arith) in
    let r1 = add_ticks first end_step key (sorted_times ts) r in
    let (r', ran, keys_of) =
      add_atoms_lem first end_step keys tss n (atom + 1) r1 (omega arith) (omega arith) in
    (
      r',
      rw (at_ts, at_key) ran,
      λ t.
          let mine = ranged t first end_step (times (count t ts) (key ∷ [])) in
          let others = atom_keys t (drop (atom + 1) keys) (drop (atom + 1) tss) in
          keys_of t
          ∙ ap (λ l. l ++ ranged t first end_step others)
              (ap (λ x. keys_at x.buffer t)
                  (add_ticks-for_all first end_step key (sorted_times ts) r)
                ∙ keys_at-same_times first end_step (key ∷ []) ts r t)
          ∙ append_assoc (keys_at r.buffer t) mine (ranged t first end_step others)
          ∙ ap (λ l. keys_at r.buffer t ++ l)
              (ranged-append t first end_step (times (count t ts) (key ∷ [])) others)
          ∙ rw (keys_left, tss_left) refl,
    )
