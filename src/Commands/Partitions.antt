-- ===== src/Commands/Partitions.antt =====
-- Keys and partitions belong to one another.
use spi_nnfront_end_common.Common.{
  ℕ, ◌≡◌, refl, sym, ◌∙◌, true, some, List, [], ◌∷◌, ◌++◌, ok, All, All-imp, All-append,
}
use spi_nnfront_end_common.Common.Numbers.{update, member}
use spi_nnfront_end_common.Common.Maps.{lookup, assign}
use spi_nnfront_end_common.Commands.Command.{MultiCastCommand}
use spi_nnfront_end_common.Commands.Sender.{
  Sender, new_sender, keys_of, add_partitions, Request, add_requests, commands_of,
  get_fixed_key_and_mask, add_commands,
}
use spi_nnfront_end_common.Commands.Partitioned.{
  IsPartitioned, HasPartition, add_partitions-IsPartitioned, add_partitions-kept,
  add_partitions-HasPartition, All-member, add_partitions-SameCommands,
}

-- Each key has its own partition, whose key it is, and partitions that are still to come are free.
-- The partition of a key, and the key of that partition.
abbrev pub IsServed : Sender → ℕ → Type 0
IsServed s key =
    (n : ℕ) × (lookup key s.keys_to_partition_id ≡ some n)
    × (get_fixed_key_and_mask n s ≡ ok (key, 0xFFFFFFFF))

abbrev AllKeyed : Sender → List MultiCastCommand → Type 0
AllKeyed s cs = All (λ c. HasPartition s c.key) cs

-- The keys of the commands have partitions.
record IsKeyed (s : Sender) : Type 0 where
  start_resume : AllKeyed s s.commands_at_start_resume
  pause_stop : AllKeyed s s.commands_at_pause_stop
  timed : AllKeyed s s.timed_commands

All-append_parts : (P : ℕ → Type 0) (xs ys : List ℕ) → All P (xs ++ ys) → All P xs × All P ys
All-append_parts P [] ys h = (tt, h)
All-append_parts P (x ∷ xs) ys h = let (a, b) = All-append_parts P xs ys h.1 in ((h.0, a), b)

All-keys_of :
    (P : ℕ → Type 0) (cs : List MultiCastCommand) → All P (keys_of cs) → All (λ c. P c.key) cs
All-keys_of P [] h = tt
All-keys_of P (c ∷ cs) h = (h.0, All-keys_of P cs h.1)

pub new_sender-IsPartitioned : IsPartitioned new_sender
unfolding lookup
new_sender-IsPartitioned = record { there = λ k n h. cc; back = λ k n h. cc; fresh = λ n h. refl }

some_inj : {m n : ℕ} → some m ≡ some n → m ≡ n
some_inj e = cc

kept :
    (keys : List ℕ) (s t : Sender) (cs : List MultiCastCommand)
    → t.keys_to_partition_id ≡ s.keys_to_partition_id
    → AllKeyed s cs
    → AllKeyed (add_partitions keys t) cs
kept keys s t cs e h =
    All-imp (λ c. HasPartition s c.key) (λ c. HasPartition (add_partitions keys t) c.key)
      (λ c (n, at). (n, add_partitions-kept keys c.key n t (rw e at))) cs h

both :
    (keys : List ℕ) (s t : Sender)
    → t.keys_to_partition_id ≡ s.keys_to_partition_id
    → (old new all : List MultiCastCommand) → all ≡ old ++ new
    → AllKeyed s old
    → AllKeyed (add_partitions keys t) new
    → AllKeyed (add_partitions keys t) all
both keys s t e old new all same h h' = rw same (
    All-append (λ c. HasPartition (add_partitions keys t) c.key) old new (kept keys s t old e h) h')

module _ (in_set_order : List ℕ → List ℕ)
    (in_set_order-member : (k : ℕ) (s : List ℕ) → member k (in_set_order s) ≡ member k s) where
  add_commands-IsKeyed :
      (r : Request) (s : Sender)
      → IsKeyed s
      → IsKeyed (
          add_commands in_set_order r.start_resume_commands r.pause_stop_commands r.timed_commands
            r.vertex s)
  unfolding add_commands
  add_commands-IsKeyed r s h =
      let a = keys_of r.start_resume_commands in
      let b = keys_of r.pause_stop_commands in
      let c = keys_of r.timed_commands in
      let ks = update (a ++ b ++ c) [] in
      let t = record s {
        commands_at_start_resume = s.commands_at_start_resume ++ r.start_resume_commands;
        commands_at_pause_stop = s.commands_at_pause_stop ++ r.pause_stop_commands;
        timed_commands = s.timed_commands ++ r.timed_commands;
        vertex_to_key_map = assign r.vertex ks s.vertex_to_key_map;
      } in
      let t' = add_partitions (in_set_order ks) t in
      let given : All (HasPartition t') (a ++ b ++ c) =
        All-imp (λ k. member k ks ≡ true) (HasPartition t')
          (λ k h. add_partitions-HasPartition (in_set_order ks) k t (in_set_order-member k ks ∙ h))
          (a ++ b ++ c) (All-member (a ++ b ++ c) []) in
      let (hab, hc) = All-append_parts (HasPartition t') (a ++ b) c given in
      let (ha, hb) = All-append_parts (HasPartition t') a b hab in
      let (e1, e2, e3, e4) = add_partitions-SameCommands (in_set_order ks) t in
      record {
        start_resume =
            both (in_set_order ks) s t refl _ _ _ e1 h.start_resume
              (All-keys_of (HasPartition t') r.start_resume_commands ha);
        pause_stop =
            both (in_set_order ks) s t refl _ _ _ e2 h.pause_stop
              (All-keys_of (HasPartition t') r.pause_stop_commands hb);
        timed =
            both (in_set_order ks) s t refl _ _ _ e3 h.timed
              (All-keys_of (HasPartition t') r.timed_commands hc);
      }

  add_requests-IsKeyed :
      (rs : List Request) (s : Sender) → IsKeyed s → IsKeyed (add_requests in_set_order rs s)
  unfolding add_requests
  add_requests-IsKeyed [] s h = h
  add_requests-IsKeyed (r ∷ rs) s h = add_requests-IsKeyed rs _ (add_commands-IsKeyed r s h)

  add_requests-IsPartitioned :
      (rs : List Request) (s : Sender)
      → IsPartitioned s
      → IsPartitioned (add_requests in_set_order rs s)
  unfolding add_requests add_commands
  add_requests-IsPartitioned [] s v = v
  add_requests-IsPartitioned (r ∷ rs) s v = add_requests-IsPartitioned rs _ (
      add_partitions-IsPartitioned (in_set_order _) _
        (record { there = v.there; back = v.back; fresh = v.fresh }))

  served : (s : Sender) (key : ℕ) → IsPartitioned s → HasPartition s key → IsServed s key
  unfolding get_fixed_key_and_mask
  served s key v (n, at) = (n, at, rw (v.there key n at, get_fixed_key_and_mask) refl)

  -- After any calls of `add_commands`, however the order of a set's members is chosen: two keys have
  -- never one partition, and the key of each command has a partition, whose fixed key it is.
  pub add_requests-IsServed :
      (rs : List Request)
      → ((j k n : ℕ)
          → lookup j (add_requests in_set_order rs new_sender).keys_to_partition_id ≡ some n
          → lookup k (add_requests in_set_order rs new_sender).keys_to_partition_id ≡ some n
          → j ≡ k)
        × All
            (λ c. IsServed (add_requests in_set_order rs new_sender) c.key)
            (commands_of (add_requests in_set_order rs new_sender))
  add_requests-IsServed rs =
      let s = add_requests in_set_order rs new_sender in
      let v = add_requests-IsPartitioned rs new_sender new_sender-IsPartitioned in
      let h =
        add_requests-IsKeyed rs new_sender
          (record { start_resume = tt; pause_stop = tt; timed = tt }) in
      let all =
        All-append (λ c. HasPartition s c.key)
          (s.commands_at_start_resume ++ s.commands_at_pause_stop) s.timed_commands
          (All-append (λ c. HasPartition s c.key) s.commands_at_start_resume
            s.commands_at_pause_stop h.start_resume h.pause_stop)
          h.timed in
      (
        λ j k n p q. some_inj (sym (v.there j n p) ∙ v.there k n q),
        All-imp (λ c. HasPartition s c.key) (λ c. IsServed s c.key) (λ c. served s c.key v)
            (commands_of s) all,
      )
