-- ===== src/Buffers/Queue.antt =====
-- What a region of keys to send promises: a queue of timestamps in ascending order, each with its
-- keys. This is the specification that `Buffers.Pending` shows the region to meet.
use mathlib.Core.Path.{subst}
use spi_nnfront_end_common.Common.{
  ==_cases, ℕ, ◌≡◌, refl, sym, le→ltb, ◌<◌, true, false, List, [], ◌∷◌, ◌++◌, map, Result, ok, err,
  assertion_error, ltb, ◌==◌, if◌then◌else◌, ==_iff, Bool-cases, All, All-imp, ◌||◌, inl, inr,
  ◌>>=◌, arith,
}
use spi_nnfront_end_common.Common.Numbers.{member}
use spi_nnfront_end_common.Buffers.Region.{insort, pop}

abbrev pub Queue : Type 0
Queue = List (ℕ × List ℕ)

-- A key goes behind the others of its timestamp.
abbrev pub insert_key : ℕ → ℕ → Queue → Queue
insert_key t key [] = (t, key ∷ []) ∷ []
insert_key t key (entry ∷ q) =
    let rest = insert_key t key q in
    if t == entry.0
    then (entry.0, entry.1 ++ key ∷ []) ∷ q
    else if ltb t entry.0
    then (t, key ∷ []) ∷ entry ∷ q
    else entry ∷ rest

-- The last key of the first timestamp goes, and an emptied timestamp with it.
abbrev pub without_key : ℕ → List ℕ → Queue → Queue
without_key t [] q = q
without_key t (key ∷ keys) q = (t, key ∷ keys) ∷ q

unfoldable pub take_key : Queue → Result (ℕ × Queue)
take_key [] = err assertion_error
take_key (entry ∷ q) = do popped ← pop entry.1; ok (popped.0, without_key entry.0 popped.1 q)

-- Strictly ascending numbers.
abbrev pub Ascends : List ℕ → Type 0
Ascends [] = Unit {0}
Ascends (t ∷ ts) = All (λ s. t < s) ts × Ascends ts

abbrev pub entry_of : (ℕ → List ℕ) → ℕ → ℕ × List ℕ
entry_of f s = (s, f s)

abbrev pub queue_of : (ℕ → List ℕ) → List ℕ → Queue
queue_of f ts = map (entry_of f) ts

pub member-after : (t : ℕ) (ts : List ℕ) → All (λ s. t < s) ts → member t ts ≡ false
unfolding member
member-after t [] h = refl
member-after t (s ∷ ts) h = ground (arith, member-after t ts h.1)

pub member-insort : (k t : ℕ) (ts : List ℕ) → member k (insort t ts) ≡ (k == t || member k ts)
unfolding member insort
member-insort k t [] = refl
member-insort k t (s ∷ ts) = ground (arith, member-insort k t ts)

pub All-member : (P : ℕ → Type 0) (t : ℕ) (ts : List ℕ) → All P ts → member t ts ≡ true → P t
unfolding member
All-member P t [] h e = cc
All-member P t (s ∷ ts) h e = elim (Bool-cases (t == s)) [
  | inl same ↦ subst P (sym ((==_iff t s).0 same)) h.0
  | inr other ↦ All-member P t ts h.1 (ground arith)
]

All-insort : (P : ℕ → Type 0) (t : ℕ) (ts : List ℕ) → P t → All P ts → All P (insort t ts)
unfolding insort
All-insort P t [] p h = (p, tt)
All-insort P t (s ∷ ts) p h = elim (Bool-cases (ltb t s)) [
  | inl e ↦ rw e (p, h)
  | inr e ↦ rw e (h.0, All-insort P t ts p h.1)
]

pub insort-Ascends :
    (t : ℕ) (ts : List ℕ) → member t ts ≡ false → Ascends ts → Ascends (insort t ts)
unfolding insort member
insort-Ascends t [] out h = (tt, tt)
insort-Ascends t (s ∷ ts) out h = elim (Bool-cases (ltb t s)) [
  | inl e ↦
      rw e ((ground arith, All-imp (λ u. s < u) (λ u. t < u) (λ u lt. ground arith) ts h.0), h)
  | inr e ↦
      rw e (All-insort (λ u. s < u) t ts (ground arith) h.0, insort-Ascends t ts (ground arith) h.1)
]

module _ (f g : ℕ → List ℕ) (t key : ℕ) (others : (s : ℕ) → (s == t) ≡ false → g s ≡ f s) where
  pub queue_of-others : (ts : List ℕ) → member t ts ≡ false → queue_of g ts ≡ queue_of f ts
  unfolding member
  queue_of-others [] out = refl
  queue_of-others (s ∷ ts) out =
      rw (others s (ground arith), queue_of-others ts (ground arith)) refl

  -- A timestamp that is new to the queue.
  pub queue_of-insort :
      (ts : List ℕ)
      → member t ts ≡ false
      → g t ≡ key ∷ []
      → queue_of g (insort t ts) ≡ insert_key t key (queue_of f ts)
  unfolding member insort
  queue_of-insort [] out new = rw new refl
  queue_of-insort (s ∷ ts) out new =
      let differs : (t == s) ≡ false = ground arith in
      elim (Bool-cases (ltb t s)) [
        | inl e ↦
            rw (differs, e, new, others s (ground arith), queue_of-others ts (ground arith)) refl
        | inr e ↦
            rw (differs, e, others s (ground arith), queue_of-insort ts (ground arith) new) refl
      ]

  -- A timestamp that is in the queue.
  pub queue_of-append :
      (ts : List ℕ)
      → Ascends ts
      → member t ts ≡ true
      → g t ≡ f t ++ key ∷ []
      → queue_of g ts ≡ insert_key t key (queue_of f ts)
  unfolding member
  queue_of-append [] h here more = cc
  queue_of-append (s ∷ ts) h here more = elim (==_cases t s) [
    | inl (same, e) ↦
        let after = member-after t ts (subst (λ u. All (λ r. u < r) ts) (sym same) h.0) in
        rw (e, queue_of-others ts after, sym same, more) refl
    | inr e ↦
        let below : s < t = All-member (λ u. s < u) t ts h.0 (ground arith) in
        rw
          (
            e,
            le→ltb t s (omega arith),
            others s (ground arith),
            queue_of-append ts h.1 (ground arith) more,
          )
          refl
  ]
