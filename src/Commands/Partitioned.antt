-- ===== src/Commands/Partitioned.antt =====
-- Giving partitions to the keys of commands.
use spi_nnfront_end_common.Common.{
  ℕ, ◌≤◌, ◌≡◌, refl, ◌∙◌, inl, inr, true, Option, none, some, List, [], ◌∷◌, ◌==◌, Bool-cases,
  Option-cases, All, arith,
}
use spi_nnfront_end_common.Common.Numbers.{member-update, add, update, member, member-add}
use spi_nnfront_end_common.Common.Maps.{lookup, lookup-assign}
use spi_nnfront_end_common.Commands.Sender.{Sender, new_partition, add_partitions}

pub record IsPartitioned (s : Sender) : Type 0 where
  pub there :
      (key n : ℕ)
      → lookup key s.keys_to_partition_id ≡ some n
      → lookup n s.partition_id_keys ≡ some key
  pub back :
      (key n : ℕ)
      → lookup n s.partition_id_keys ≡ some key
      → lookup key s.keys_to_partition_id ≡ some n
  pub fresh : (n : ℕ) → s.edge_partition_id_counter ≤ n → lookup n s.partition_id_keys ≡ none

abbrev pub HasPartition : Sender → ℕ → Type 0
HasPartition s key = (n : ℕ) × (lookup key s.keys_to_partition_id ≡ some n)

new_partition-IsPartitioned :
    (key : ℕ) (s : Sender)
    → IsPartitioned s
    → IsPartitioned (new_partition (lookup key s.keys_to_partition_id) key s)
new_partition-IsPartitioned key s v = elim (Option-cases (lookup key s.keys_to_partition_id)) [
  | inr (n, e) ↦ rw e v
  | inl e ↦ rw e (record {
    there = λ k n h. ground (
      arith,
      lookup-assign k key s.edge_partition_id_counter s.keys_to_partition_id,
      lookup-assign n s.edge_partition_id_counter key s.partition_id_keys,
      v.there k n,
      v.fresh n,
    );
    back = λ k n h. ground (
      arith,
      lookup-assign k key s.edge_partition_id_counter s.keys_to_partition_id,
      lookup-assign n s.edge_partition_id_counter key s.partition_id_keys,
      v.back k n,
      e,
    );
    fresh = λ n h.
        ground
          (arith, lookup-assign n s.edge_partition_id_counter key s.partition_id_keys, v.fresh n);
  })
]

pub add_partitions-IsPartitioned :
    (keys : List ℕ) (s : Sender) → IsPartitioned s → IsPartitioned (add_partitions keys s)
unfolding add_partitions
add_partitions-IsPartitioned [] s v = v
add_partitions-IsPartitioned (key ∷ keys) s v =
    add_partitions-IsPartitioned keys _ (new_partition-IsPartitioned key s v)

new_partition-kept :
    (k key n : ℕ) (s : Sender)
    → lookup k s.keys_to_partition_id ≡ some n
    → lookup k (new_partition (lookup key s.keys_to_partition_id) key s).keys_to_partition_id
      ≡ some n
new_partition-kept k key n s e = elim (Option-cases (lookup key s.keys_to_partition_id)) [
  | inr (m, known) ↦ rw known e
  | inl new ↦
      rw new
        (ground (arith, lookup-assign k key s.edge_partition_id_counter s.keys_to_partition_id))
]

-- The partition that a key has is the one it keeps.
pub add_partitions-kept :
    (keys : List ℕ) (k n : ℕ) (s : Sender)
    → lookup k s.keys_to_partition_id ≡ some n
    → lookup k (add_partitions keys s).keys_to_partition_id ≡ some n
unfolding add_partitions
add_partitions-kept [] k n s e = e
add_partitions-kept (key ∷ keys) k n s e =
    add_partitions-kept keys k n _ (new_partition-kept k key n s e)

new_partition-HasPartition :
    (key : ℕ) (s : Sender)
    → HasPartition (new_partition (lookup key s.keys_to_partition_id) key s) key
new_partition-HasPartition key s = elim (Option-cases (lookup key s.keys_to_partition_id)) [
  | inr (m, known) ↦ rw known (m, known)
  | inl new ↦ rw new (
    s.edge_partition_id_counter,
    ground (arith, lookup-assign key key s.edge_partition_id_counter s.keys_to_partition_id),
  )
]

pub add_partitions-HasPartition :
    (keys : List ℕ) (k : ℕ) (s : Sender)
    → member k keys ≡ true
    → HasPartition (add_partitions keys s) k
unfolding add_partitions member
add_partitions-HasPartition [] k s h = cc
add_partitions-HasPartition (key ∷ keys) k s h = elim (Bool-cases (k == key)) [
  | inl same ↦
      let (n, e) = new_partition-HasPartition key s in
      let e' : k ≡ key = ground arith in rw e' (n, add_partitions-kept keys key n _ e)
  | inr other ↦ add_partitions-HasPartition keys k _ (ground arith)
]

pub All-member : (ks s : List ℕ) → All (λ k. member k (update ks s) ≡ true) ks
unfolding update
All-member [] s = tt
All-member (k ∷ ks) s =
    (ground (arith, member-update k ks (add k s), member-add k k s), All-member ks (add k s))

-- What giving partitions leaves alone.
abbrev pub SameCommands : Sender → Sender → Type 0
SameCommands s t =
    (t.commands_at_start_resume ≡ s.commands_at_start_resume)
    × (t.commands_at_pause_stop ≡ s.commands_at_pause_stop)
    × (t.timed_commands ≡ s.timed_commands)
    × (t.vertex_to_key_map ≡ s.vertex_to_key_map)

new_partition-SameCommands :
    (key : ℕ) (s : Sender) (o : Option ℕ) → SameCommands s (new_partition o key s)
new_partition-SameCommands key s none = (refl, refl, refl, refl)
new_partition-SameCommands key s (some n) = (refl, refl, refl, refl)

pub add_partitions-SameCommands :
    (keys : List ℕ) (s : Sender) → SameCommands s (add_partitions keys s)
unfolding add_partitions
add_partitions-SameCommands [] s = (refl, refl, refl, refl)
add_partitions-SameCommands (key ∷ keys) s =
    let (a, b, c, d) = new_partition-SameCommands key s (lookup key s.keys_to_partition_id) in
    let (a', b', c', d') =
      add_partitions-SameCommands keys (new_partition (lookup key s.keys_to_partition_id) key s) in
    (a' ∙ a, b' ∙ b, c' ∙ c, d' ∙ d)
