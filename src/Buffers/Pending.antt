-- ===== src/Buffers/Pending.antt =====
-- The region of keys to send is a queue of timestamps with their keys.
use spi_nnfront_end_common.Common.{
  lengths, ℕ, zero, suc, ◌≤◌, ◌<◌, ◌≡◌, refl, ap, ◌∙◌, ◌⊎◌, inl, inr, true, false, Option, none,
  some, List, [], ◌∷◌, ◌++◌, ◌==◌, ==_iff, ==_refl, Bool-cases, length, take, drop, All, le→ltb,
  arith,
}
use spi_nnfront_end_common.Common.Numbers.{member}
use spi_nnfront_end_common.Common.Maps.{lookup, assign, lookup-assign}
use spi_nnfront_end_common.Buffers.Region.{BufferedSendingRegion, insort, add_key, append_key}
use spi_nnfront_end_common.Buffers.Queue.{
  Queue, insert_key, Ascends, queue_of, queue_of-insort, queue_of-append, member-insort,
  insort-Ascends,
}

-- The timestamps that are still to come.
abbrev pub pending : BufferedSendingRegion → List ℕ
pending r = drop r.current_timestamp_pos r.timestamps

abbrev pub no_keys_if_missing : Option (List ℕ) → List ℕ
no_keys_if_missing none = []
no_keys_if_missing (some keys) = keys

abbrev pub keys_at : List (ℕ × List ℕ) → ℕ → List ℕ
keys_at d t = no_keys_if_missing (lookup t d)

-- The queue that the region holds.
abbrev pub queue : BufferedSendingRegion → Queue
queue r = queue_of (keys_at r.buffer) (pending r)

-- The buffer has keys for just the timestamps that are still to come.
abbrev pub Held : List (ℕ × List ℕ) → List ℕ → ℕ → Type 0
Held d ts t =
    ((lookup t d ≡ none) × (member t ts ≡ false))
    ⊎ ((keys : List ℕ) × (lookup t d ≡ some keys) × (0 < length keys) × (member t ts ≡ true))

pub record IsWell (r : BufferedSendingRegion) : Type 0 where
  pub started : r.current_timestamp_pos ≤ length r.timestamps
  pub ascends : Ascends (pending r)
  pub held : (t : ℕ) → Held r.buffer (pending r) t

-- The timestamp is not before those whose keys are sent already.
abbrev pub IsLater : ℕ → BufferedSendingRegion → Type 0
IsLater t r = All (λ s. s ≤ t) (take r.current_timestamp_pos r.timestamps)

drop-insort :
    (n t : ℕ) (ts : List ℕ)
    → All (λ s. s ≤ t) (take n ts)
    → n ≤ length ts
    → drop n (insort t ts) ≡ insort t (drop n ts)
unfolding insort
drop-insort zero t ts h fits = refl
drop-insort (suc n) t [] h fits = absurd (omega arith)
drop-insort (suc n) t (s ∷ ts) h fits = rw (le→ltb t s h.0) (drop-insort n t ts h.1 (omega arith))

length-insort : (t : ℕ) (ts : List ℕ) → length (insort t ts) ≡ suc (length ts)
unfolding insort
length-insort t [] = refl
length-insort t (s ∷ ts) = ground (arith, length-insort t ts)

-- An assignment at `t`, seen at another timestamp and at `t`.
pub keys_at-assign :
    (d : List (ℕ × List ℕ)) (t : ℕ) (keys : List ℕ) (s : ℕ)
    → (s == t) ≡ false
    → keys_at (assign t keys d) s ≡ keys_at d s
keys_at-assign d t keys s e = rw (lookup-assign s t keys d, e) refl

pub keys_at-assign_same :
    (d : List (ℕ × List ℕ)) (t : ℕ) (keys : List ℕ) → keys_at (assign t keys d) t ≡ keys
keys_at-assign_same d t keys = rw (lookup-assign t t keys d, ==_refl t) refl

Held-insort :
    (d : List (ℕ × List ℕ)) (ts : List ℕ) (t : ℕ) (keys : List ℕ) (s : ℕ)
    → 0 < length keys
    → Held d ts s
    → Held (assign t keys d) (insort t ts) s
Held-insort d ts t keys s some_key h = elim (Bool-cases (s == t)) [
  | inl same ↦
      rw (lookup-assign s t keys d, member-insort s t ts, same) (inr (keys, refl, some_key, refl))
  | inr other ↦ rw (lookup-assign s t keys d, member-insort s t ts, other) h
]

pub Held-assign :
    (d : List (ℕ × List ℕ)) (ts : List ℕ) (t : ℕ) (keys : List ℕ) (s : ℕ)
    → 0 < length keys
    → member t ts ≡ true
    → Held d ts s
    → Held (assign t keys d) ts s
Held-assign d ts t keys s some_key here h = elim (Bool-cases (s == t)) [
  | inl same ↦
      rw (lookup-assign s t keys d, same)
        (inr (keys, refl, some_key, ap (λ u. member u ts) ((==_iff s t).0 same) ∙ here))
  | inr other ↦ rw (lookup-assign s t keys d, other) h
]

module _ (t key : ℕ) (r : BufferedSendingRegion) (w : IsWell r) (later : IsLater t r) where
  new_timestamp :
      lookup t r.buffer ≡ none
      → member t (pending r) ≡ false
      → (queue (append_key t key r none) ≡ insert_key t key (queue r))
        × IsWell (append_key t key r none)
  new_timestamp e out =
      let moved = drop-insort r.current_timestamp_pos t r.timestamps later w.started in
      (
        rw moved (
            queue_of-insort (keys_at r.buffer) (keys_at (assign t (key ∷ []) r.buffer)) t key
              (keys_at-assign r.buffer t (key ∷ [])) (pending r) out
              (keys_at-assign_same r.buffer t (key ∷ []))),
        record {
          started = omega (arith, w.started, length-insort t r.timestamps);
          ascends = rw moved (insort-Ascends t (pending r) out w.ascends);
          held = λ s.
              rw moved (Held-insort r.buffer (pending r) t (key ∷ []) s (omega arith) (w.held s));
        },
      )

  old_timestamp :
      (keys : List ℕ)
      → lookup t r.buffer ≡ some keys
      → member t (pending r) ≡ true
      → (queue (append_key t key r (some keys)) ≡ insert_key t key (queue r))
        × IsWell (append_key t key r (some keys))
  old_timestamp keys e here = (
    queue_of-append (keys_at r.buffer) (keys_at (assign t (keys ++ key ∷ []) r.buffer)) t key
        (keys_at-assign r.buffer t (keys ++ key ∷ [])) (pending r) w.ascends here
        (keys_at-assign_same r.buffer t (keys ++ key ∷ []) ∙ rw e refl),
    record {
      started = w.started;
      ascends = w.ascends;
      held = λ s.
          Held-assign r.buffer (pending r) t (keys ++ key ∷ []) s (grind lengths) here (w.held s);
    },
  )

  -- Adding a key for a timestamp that is not before those already sent puts it behind the other keys
  -- of the timestamp in the queue, at the timestamp's place in ascending order.
  pub add_key-queue :
      (queue (add_key t key r) ≡ insert_key t key (queue r)) × IsWell (add_key t key r)
  unfolding add_key
  add_key-queue = elim (w.held t) [
    | inl (e, out) ↦ rw e (new_timestamp e out)
    | inr (keys, e, some_key, here) ↦ rw e (old_timestamp keys e here)
  ]
