-- ===== src/Buffers/Takes.antt =====
-- Adding keys to a message takes them from the region's queue, as many as fit.
use mathlib.Core.Bool.{false≢true}
use mathlib.Core.Path.{subst}
use spi_nnfront_end_common.Common.{
  ℕ, zero, suc, ◌≤◌, ◌<◌, ◌≡◌, refl, sym, ap, ◌∙◌, inl, inr, true, false, none, some, List, [], ◌∷◌,
  ◌++◌, map, append_assoc, append-nil, Error, ==_iff, Result-cases, ok, err, ◌==◌, length, All,
  Bool-cases, arith,
}
use spi_nnfront_end_common.Common.Numbers.{member}
use spi_nnfront_end_common.Common.Maps.{lookup}
use spi_nnfront_end_common.Buffers.Region.{BufferedSendingRegion, is_next_key, pop}
use spi_nnfront_end_common.Buffers.Queue.{
  Queue, All-member, take_key, without_key, queue_of, Ascends,
}
use spi_nnfront_end_common.Buffers.Pending.{pending, queue, keys_at, IsWell}
use spi_nnfront_end_common.Buffers.Taking.{Refines, next_key-Refines}
use spi_nnfront_end_common.Buffers.Manager.{add_keys_to}

abbrev pub timestamps_of : Queue → List ℕ
timestamps_of [] = []
timestamps_of (entry ∷ q) = entry.0 ∷ timestamps_of q

-- Taking keys from a queue one after the other, each with the timestamp that it is for.
pub data Takes : Queue → List (ℕ × ℕ) → Queue → Type 0 where
  nothing : (q : Queue) → Takes q [] q
  one_key :
      (t : ℕ) (keys : List ℕ) (q q1 q2 : Queue) (key : ℕ) (taken : List (ℕ × ℕ))
      → take_key ((t, keys) ∷ q) ≡ ok (key, q1)
      → Takes q1 taken q2
      → Takes ((t, keys) ∷ q) ((t, key) ∷ taken) q2

pub Takes-append :
    (q0 q1 q2 : Queue) (l1 l2 : List (ℕ × ℕ))
    → Takes q0 l1 q1
    → Takes q1 l2 q2
    → Takes q0 (l1 ++ l2) q2
Takes-append q0 q1 q2 l1 l2 (nothing q) u = u
Takes-append q0 q1 q2 l1 l2 (one_key t keys q q' q'' key taken e h) u =
    one_key t keys q q' q2 key (taken ++ l2) e (Takes-append q' q1 q2 taken l2 h u)

timestamps_of-queue_of : (f : ℕ → List ℕ) (ts : List ℕ) → timestamps_of (queue_of f ts) ≡ ts
timestamps_of-queue_of f [] = refl
timestamps_of-queue_of f (t ∷ ts) = ap (λ l. t ∷ l) (timestamps_of-queue_of f ts)

without_key-All :
    (P : ℕ → Type 0) (t : ℕ) (left : List ℕ) (q : Queue)
    → P t × All P (timestamps_of q)
    → All P (timestamps_of (without_key t left q))
without_key-All P t [] q h = h.1
without_key-All P t (key ∷ keys) q h = h

pub err≢ok : {A : Type 0} {x : Error} {a : A} → ¬ (err x ≡ ok a)
err≢ok e = cc

second_eq : {A B : Type 0} (p p' : A × B) → ok p ≡ ok p' → p.1 ≡ p'.1
second_eq p p' e = cc

-- Taking a key leaves no timestamp that was not there.
take_key-All :
    (P : ℕ → Type 0) (q q' : Queue) (key : ℕ)
    → take_key q ≡ ok (key, q')
    → All P (timestamps_of q)
    → All P (timestamps_of q')
unfolding take_key
take_key-All P [] q' key e h = cc
take_key-All P ((t, keys) ∷ q) q' key e h = elim (Result-cases (pop keys)) [
  | inr (x, popped) ↦ absurd (err≢ok (rw popped at e))
  | inl ((k, left), popped) ↦
      let same : without_key t left q ≡ q' =
        second_eq (k, without_key t left q) (key, q') (rw popped at e) in
      subst (λ q. All P (timestamps_of q)) same (without_key-All P t left q h)
]

is_next_key-none :
    (t : ℕ) (r : BufferedSendingRegion) → lookup t r.buffer ≡ none → is_next_key t r ≡ false
unfolding is_next_key
is_next_key-none t r e = rw (e, is_next_key) refl

pending-All :
    (P : ℕ → Type 0) (r r' : BufferedSendingRegion) (key : ℕ)
    → take_key (queue r) ≡ ok (key, queue r')
    → All P (pending r)
    → All P (pending r')
pending-All P r r' key e h =
    subst (All P) (timestamps_of-queue_of (keys_at r'.buffer) (pending r')) (
      take_key-All P (queue r) (queue r') key e
        (subst (All P) (sym (timestamps_of-queue_of (keys_at r.buffer) (pending r))) h))

pub nil≢cons : {A : Type 0} {x : A} {xs : List A} → ¬ ([] ≡ x ∷ xs)
nil≢cons e = cc

module _ (timestamp : ℕ) where
  abbrev pub with_timestamp : ℕ → ℕ × ℕ
  with_timestamp key = (timestamp, key)

  -- Where no earlier timestamp is left, a timestamp that has keys is the first.
  first_timestamp :
      (r : BufferedSendingRegion)
      → IsWell r
      → All (λ s. timestamp ≤ s) (pending r)
      → is_next_key timestamp r ≡ true
      → (rest : List ℕ) × (pending r ≡ timestamp ∷ rest)
  first_timestamp r w low next = elim (w.held timestamp) [
    | inl (e, out) ↦ absurd (false≢true (sym (is_next_key-none timestamp r e) ∙ next))
    | inr (keys, e, some_key, here) ↦ at_head (pending r) low w.ascends here
  ]
    where
      at_head :
          (ts : List ℕ)
          → All (λ s. timestamp ≤ s) ts
          → Ascends ts
          → member timestamp ts ≡ true
          → (rest : List ℕ) × (ts ≡ timestamp ∷ rest)
      at_head [] low up here = unfold member in cc
      at_head (s ∷ ts) low up here = elim (Bool-cases (timestamp == s)) [
        | inl same ↦ (ts, ap (λ u. u ∷ ts) (sym ((==_iff timestamp s).0 same)))
        | inr other ↦
            let after : s < timestamp =
              All-member (λ u. s < u) timestamp ts up.0 (unfold member in ground arith) in
            absurd (omega arith)
      ]

  -- What a call of `add_keys_to` yields.
  pub record Added (rounds : ℕ) (keys : List ℕ) (r : BufferedSendingRegion) : Type 0 where
    pub more : List ℕ
    pub after : BufferedSendingRegion
    pub added : add_keys_to rounds timestamp keys r ≡ ok (keys ++ more, after)
    pub takes : Takes (queue r) (map with_timestamp more) (queue after)
    pub few : length more ≤ rounds
    pub well : IsWell after
    pub some_key : is_next_key timestamp r ≡ true → 0 < rounds → 0 < length more

  one_more :
      (rounds : ℕ) (keys : List ℕ) (r : BufferedSendingRegion)
      → ((k : List ℕ) (r' : BufferedSendingRegion)
          → IsWell r'
          → All (λ s. timestamp ≤ s) (pending r')
          → Added rounds k r')
      → All (λ s. timestamp ≤ s) (pending r)
      → Refines r
      → (rest : List ℕ) × (pending r ≡ timestamp ∷ rest)
      → is_next_key timestamp r ≡ true
      → Added (suc rounds) keys r
  unfolding add_keys_to
  one_more rounds keys r again low (inl (none_left, x, y)) (rest, at) next =
      absurd (nil≢cons (sym none_left ∙ at))
  one_more rounds keys r again low (inr (key, r', taken, dequeued, well)) (rest, at) next =
      let a =
        again (keys ++ key ∷ []) r' well (pending-All (λ s. timestamp ≤ s) r r' key dequeued low) in
      let shape : queue r
          ≡ (timestamp, keys_at r.buffer timestamp) ∷ queue_of (keys_at r.buffer) rest =
        ap (queue_of (keys_at r.buffer)) at in
      record {
        more = key ∷ a.more;
        after = a.after;
        added =
            rw (next, add_keys_to, taken, a.added)
              (ap (λ l. ok (l, a.after)) (append_assoc keys (key ∷ []) a.more));
        takes =
            subst (λ q. Takes q (map with_timestamp (key ∷ a.more)) (queue a.after)) (sym shape)
              (one_key timestamp (keys_at r.buffer timestamp) (queue_of (keys_at r.buffer) rest)
                (queue r') (queue a.after) key (map with_timestamp a.more)
                (subst (λ q. take_key q ≡ ok (key, queue r')) shape dequeued) a.takes);
        few = omega (arith, a.few);
        well = a.well;
        some_key = λ next some. omega arith;
      }

  pub add_keys_to-Added :
      (rounds : ℕ) (keys : List ℕ) (r : BufferedSendingRegion)
      → IsWell r
      → All (λ s. timestamp ≤ s) (pending r)
      → Added rounds keys r
  unfolding add_keys_to
  add_keys_to-Added zero keys r w low = record {
    more = [];
    after = r;
    added = ap (λ l. ok (l, r)) (sym (append-nil keys));
    takes = nothing (queue r);
    few = omega arith;
    well = w;
    some_key = λ next some. absurd (omega arith);
  }
  add_keys_to-Added (suc rounds) keys r w low = elim (Bool-cases (is_next_key timestamp r)) [
    | inr none_left ↦ record {
      more = [];
      after = r;
      added = rw (none_left, add_keys_to) (ap (λ l. ok (l, r)) (sym (append-nil keys)));
      takes = nothing (queue r);
      few = omega arith;
      well = w;
      some_key = λ next some. absurd (false≢true (sym none_left ∙ next));
    }
    | inl next ↦
        one_more rounds keys r (λ k r' well low. add_keys_to-Added rounds k r' well low) low
          (next_key-Refines r w) (first_timestamp r w low next) next
  ]

pub is_next_key-some :
    (t : ℕ) (r : BufferedSendingRegion) (keys : List ℕ)
    → lookup t r.buffer ≡ some keys
    → 0 < length keys
    → is_next_key t r ≡ true
unfolding is_next_key
is_next_key-some t r [] e some_key = absurd (omega arith)
is_next_key-some t r (key ∷ keys) e some_key = rw (e, is_next_key) refl
