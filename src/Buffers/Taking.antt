-- ===== src/Buffers/Taking.antt =====
-- Taking keys from a region takes them from its queue.
use mathlib.Core.Bool.{false≢true}
use spi_nnfront_end_common.Common.{
  ℕ, zero, suc, ◌+◌, ◌≤◌, ◌<◌, ◌≡◌, refl, sym, ap, ◌∙◌, ◌⊎◌, inl, inr, true, false, none, some,
  List, [], ◌∷◌, ok, err, assertion_error, ◌==◌, ==_iff, ==_refl, Bool-cases, length, drop,
  get_elem?, arith,
}
use spi_nnfront_end_common.Common.Numbers.{member}
use spi_nnfront_end_common.Common.Maps.{lookup, assign, remove, lookup-remove}
use spi_nnfront_end_common.Buffers.Region.{
  BufferedSendingRegion, next_timestamp, next_key, pop, put_back,
}
use spi_nnfront_end_common.Buffers.Queue.{
  take_key, without_key, Ascends, queue_of, queue_of-others, member-after,
}
use spi_nnfront_end_common.Buffers.Pending.{
  pending, keys_at, queue, Held, IsWell, keys_at-assign, keys_at-assign_same, Held-assign,
}

pub get_elem?-drop_cons :
    (n t : ℕ) (ts rest : List ℕ)
    → drop n ts ≡ t ∷ rest
    → (get_elem? ts n ≡ some t) × (drop (suc n) ts ≡ rest) × (n + 1 ≤ length ts)
get_elem?-drop_cons zero t [] rest e = cc
get_elem?-drop_cons zero t (s ∷ ts) rest e = (cc, cc, omega arith)
get_elem?-drop_cons (suc n) t [] rest e = cc
get_elem?-drop_cons (suc n) t (s ∷ ts) rest e =
    let (first, others, more) = get_elem?-drop_cons n t ts rest e in (first, others, omega arith)

get_elem?-drop_nil : (n : ℕ) (ts : List ℕ) → drop n ts ≡ [] → get_elem? ts n ≡ none
get_elem?-drop_nil zero [] e = refl
get_elem?-drop_nil zero (s ∷ ts) e = cc
get_elem?-drop_nil (suc n) [] e = refl
get_elem?-drop_nil (suc n) (s ∷ ts) e = get_elem?-drop_nil n ts e

pop-some :
    (keys : List ℕ) → 0 < length keys → (key : ℕ) × (rest : List ℕ) × (pop keys ≡ ok (key, rest))
unfolding pop
pop-some [] h = absurd (omega arith)
pop-some (k ∷ []) h = (k, [], refl)
pop-some (k ∷ l ∷ keys) h =
    let (key, rest, e) = pop-some (l ∷ keys) (omega arith) in (key, k ∷ rest, rw e refl)

-- Both raise for the want of a timestamp, or both give the same key and then hold the same queue.
abbrev pub Refines : BufferedSendingRegion → Type 0
Refines r =
    ((pending r ≡ [])
      × (next_key r ≡ err assertion_error)
      × (take_key (queue r) ≡ err assertion_error))
    ⊎ ((key : ℕ) × (r' : BufferedSendingRegion) × (next_key r ≡ ok (key, r'))
        × (take_key (queue r) ≡ ok (key, queue r'))
        × IsWell r')

keys_at-remove :
    (d : List (ℕ × List ℕ)) (t s : ℕ) → (s == t) ≡ false → keys_at (remove t d) s ≡ keys_at d s
keys_at-remove d t s e = rw (lookup-remove s t d, e) refl

pub member-first : (t : ℕ) (ts : List ℕ) → member t (t ∷ ts) ≡ true
unfolding member
member-first t ts = rw (==_refl t) refl

Held-remove :
    (d : List (ℕ × List ℕ)) (t : ℕ) (rest : List ℕ) (s : ℕ)
    → member t rest ≡ false
    → Held d (t ∷ rest) s
    → Held (remove t d) rest s
unfolding member
Held-remove d t rest s out h = elim (Bool-cases (s == t)) [
  | inl same ↦
      rw (lookup-remove s t d, same)
        (inl (refl, ap (λ u. member u rest) ((==_iff s t).0 same) ∙ out))
  | inr other ↦ rw (lookup-remove s t d, other) (rw other at h)
]

nothing_left :
    (r : BufferedSendingRegion)
    → pending r ≡ []
    → (next_key r ≡ err assertion_error) × (take_key (queue r) ≡ err assertion_error)
unfolding next_key next_timestamp take_key
nothing_left r at =
    (rw (get_elem?-drop_nil r.current_timestamp_pos r.timestamps at) refl, rw at refl)

module _ (r : BufferedSendingRegion) (w : IsWell r) (t : ℕ) (rest : List ℕ)
    (at : pending r ≡ t ∷ rest) where
  ascending : Ascends (t ∷ rest)
  ascending = rw at at w.ascends

  holds_at : (s : ℕ) → Held r.buffer (t ∷ rest) s
  holds_at s = rw at at (w.held s)

  -- The state after the last key of `t` is taken.
  emptied : (queue (put_back t [] r) ≡ queue_of (keys_at r.buffer) rest) × IsWell (put_back t [] r)
  emptied =
      let (first, others, more) =
        get_elem?-drop_cons r.current_timestamp_pos t r.timestamps rest at in
      let moved : drop (r.current_timestamp_pos + 1) r.timestamps ≡ rest =
        ap (λ n. drop n r.timestamps) {y = suc r.current_timestamp_pos} (omega arith) ∙ others in
      (
        rw moved (
            queue_of-others (keys_at r.buffer) (keys_at (remove t r.buffer)) t 0
              (keys_at-remove r.buffer t) rest (member-after t rest ascending.0)),
        record {
          started = more;
          ascends = rw moved ascending.1;
          held = λ s.
              rw moved
                (Held-remove r.buffer t rest s (member-after t rest ascending.0) (holds_at s));
        },
      )

  shortened :
      (key : ℕ) (keys : List ℕ)
      → (queue (put_back t (key ∷ keys) r) ≡ (t, key ∷ keys) ∷ queue_of (keys_at r.buffer) rest)
        × IsWell (put_back t (key ∷ keys) r)
  shortened key keys = (
    rw
        (
          at,
          keys_at-assign_same r.buffer t (key ∷ keys),
          queue_of-others (keys_at r.buffer) (keys_at (assign t (key ∷ keys) r.buffer)) t 0
              (keys_at-assign r.buffer t (key ∷ keys)) rest (member-after t rest ascending.0),
        )
        refl,
    record {
      started = w.started;
      ascends = w.ascends;
      held = λ s.
          Held-assign r.buffer (pending r) t (key ∷ keys) s (omega arith)
            (rw at (member-first t rest)) (w.held s);
    },
  )

  put_back-queue :
      (left : List ℕ)
      → (queue (put_back t left r) ≡ without_key t left (queue_of (keys_at r.buffer) rest))
        × IsWell (put_back t left r)
  put_back-queue [] = emptied
  put_back-queue (key ∷ keys) = shortened key keys

  key_taken : (keys : List ℕ) → lookup t r.buffer ≡ some keys → 0 < length keys → Refines r
  unfolding next_key next_timestamp take_key
  key_taken keys e some_key =
      let (first, others, more) =
        get_elem?-drop_cons r.current_timestamp_pos t r.timestamps rest at in
      let (key, left, popped) = pop-some keys some_key in
      inr (
        key,
        put_back t left r,
        rw (first, e, popped) refl,
        rw (at, e, popped) (ap (λ q. ok (key, q)) (sym (put_back-queue left).0)),
        (put_back-queue left).1,
      )

  nonempty-Refines : Refines r
  nonempty-Refines = elim (holds_at t) [
    | inl (e, out) ↦ absurd (false≢true (sym out ∙ member-first t rest))
    | inr (keys, e, some_key, here) ↦ key_taken keys e some_key
  ]

-- `next_key` takes from the region the key that the queue gives, the last one of the first timestamp,
-- and the region then holds the rest of the queue; both raise where there is no timestamp left. A
-- region with a timestamp left never raises.
pub next_key-Refines : (r : BufferedSendingRegion) → IsWell r → Refines r
next_key-Refines r w = by_pending (pending r) refl
  where
    by_pending : (ts : List ℕ) → pending r ≡ ts → Refines r
    by_pending [] at = inl (at, (nothing_left r at).0, (nothing_left r at).1)
    by_pending (t ∷ rest) at = nonempty-Refines r w t rest at
