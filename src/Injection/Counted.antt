-- ===== src/Injection/Counted.antt =====
-- How often a key is sent at a time step, and how often it is in a queue.
use mathlib.Core.Path.{subst}
use spi_nnfront_end_common.Common.{
  All, ◌<◌, ==_cases, ℕ, ◌+◌, ◌≡◌, refl, sym, ◌∙◌, inl, inr, List, [], ◌∷◌, ok, ◌==◌, if◌then◌else◌,
  Result-cases, arith, ◌&&◌,
}
use spi_nnfront_end_common.Common.Numbers.{member}
use spi_nnfront_end_common.Buffers.Region.{BufferedSendingRegion, pop}
use spi_nnfront_end_common.Buffers.Queue.{
  Queue, take_key, without_key, queue_of, Ascends, member-after,
}
use spi_nnfront_end_common.Buffers.Pending.{pending, queue, keys_at, IsWell}
use spi_nnfront_end_common.Buffers.Takes.{Takes, nothing, one_key, err≢ok}
use spi_nnfront_end_common.Injection.Rates.{count}

abbrev pub n_sent : ℕ → ℕ → List (ℕ × ℕ) → ℕ
n_sent t k [] = 0
n_sent t k (item ∷ items) = (if t == item.0 && k == item.1 then 1 else 0) + n_sent t k items

abbrev pub n_queued : ℕ → ℕ → Queue → ℕ
n_queued t k [] = 0
n_queued t k (entry ∷ q) = (if t == entry.0 then count k entry.1 else 0) + n_queued t k q

pair_eq : {A B : Type 0} (p p' : A × B) → ok p ≡ ok p' → (p.0 ≡ p'.0) × (p.1 ≡ p'.1)
pair_eq p p' e = (cc, cc)

count-pop :
    (k : ℕ) (keys : List ℕ) (key : ℕ) (left : List ℕ)
    → pop keys ≡ ok (key, left)
    → count k keys ≡ count k left + (if k == key then 1 else 0)
unfolding pop count
count-pop k [] key left e = absurd (err≢ok e)
count-pop k (a ∷ []) key left e =
    let (same_key, same_left) = pair_eq (a, []) (key, left) e in
    rw (sym same_key, sym same_left) (omega arith)
count-pop k (a ∷ b ∷ keys) key left e = elim (Result-cases (pop (b ∷ keys))) [
  | inr (x, failed) ↦ absurd (err≢ok (rw failed at e))
  | inl ((key1, left1), popped) ↦
      let (same_key, same_left) = pair_eq (key1, a ∷ left1) (key, left) (rw popped at e) in
      let rest = count-pop k (b ∷ keys) key1 left1 popped in
      rw (sym same_key, sym same_left) (omega (arith, rest))
]

n_queued-without_key :
    (t k s : ℕ) (left : List ℕ) (q : Queue)
    → n_queued t k (without_key s left q) ≡ (if t == s then count k left else 0) + n_queued t k q
unfolding count
n_queued-without_key t k s [] q = ground arith
n_queued-without_key t k s (key ∷ keys) q = refl

n_queued-take_key :
    (t k s : ℕ) (keys : List ℕ) (q q' : Queue) (key : ℕ)
    → take_key ((s, keys) ∷ q) ≡ ok (key, q')
    → n_queued t k ((s, keys) ∷ q) ≡ n_sent t k ((s, key) ∷ []) + n_queued t k q'
unfolding take_key
n_queued-take_key t k s keys q q' key e = elim (Result-cases (pop keys)) [
  | inr (x, failed) ↦ absurd (err≢ok (rw failed at e))
  | inl ((key1, left), popped) ↦
      let (same_key, same_queue) =
        pair_eq (key1, without_key s left q) (key, q') (rw popped at e) in
      rw (sym same_key, sym same_queue)
        (ground (arith, count-pop k keys key1 left popped, n_queued-without_key t k s left q))
]

-- What is taken and what is left is what was there.
pub n_queued-Takes :
    (t k : ℕ) (q : Queue) (taken : List (ℕ × ℕ)) (q' : Queue)
    → Takes q taken q'
    → n_queued t k q ≡ n_sent t k taken + n_queued t k q'
n_queued-Takes t k q taken q' (nothing _) = omega arith
n_queued-Takes t k q taken q' (one_key s keys q0 q1 _ key more e h) =
    omega (arith, n_queued-take_key t k s keys q0 q1 key e, n_queued-Takes t k q1 more q' h)

n_queued-queue_of :
    (t k : ℕ) (f : ℕ → List ℕ) (ts : List ℕ)
    → Ascends ts
    → n_queued t k (queue_of f ts) ≡ (if member t ts then count k (f t) else 0)
unfolding member
n_queued-queue_of t k f [] h = refl
n_queued-queue_of t k f (s ∷ ts) h = elim (==_cases t s) [
  | inl (same, e) ↦
      let below : All (λ u. t < u) ts = subst (λ x. All (λ u. x < u) ts) (sym same) h.0 in
      let rest : n_queued t k (queue_of f ts) ≡ 0 =
        n_queued-queue_of t k f ts h.1 ∙ rw (member-after t ts below) refl in
      rw (e, rest, sym same) (omega arith)
  | inr e ↦ rw e (omega (arith, n_queued-queue_of t k f ts h.1))
]

-- A region's queue has the keys that are in its buffer.
pub n_queued-queue :
    (t k : ℕ) (r : BufferedSendingRegion)
    → IsWell r
    → n_queued t k (queue r) ≡ count k (keys_at r.buffer t)
unfolding count
n_queued-queue t k r w = elim (w.held t) [
  | inl (e, out) ↦ rw (n_queued-queue_of t k (keys_at r.buffer) (pending r) w.ascends, out, e) refl
  | inr (keys, e, some_key, here) ↦
      rw (n_queued-queue_of t k (keys_at r.buffer) (pending r) w.ascends, here) refl
]
