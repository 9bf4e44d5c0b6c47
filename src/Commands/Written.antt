-- ===== src/Commands/Written.antt =====
-- The sender's specification, and how the core reads it (c_common/models/
-- command_sender_multicast_source/src/command_sender_multicast_source.c).
use spi_nnfront_end_common.Common.{
  ◌⊎◌, ◌≢◌, ==_iff, configuration_exception, ℕ, ◌+◌, ◌*◌, ◌^◌, ◌<◌, ◌≡◌, refl, ap, inl, inr, Option,
  none, some, List, [], ◌∷◌, map, ok, err, ◌==◌, Bool-cases, length, All, arith, ◌>>=◌,
}
use spi_nnfront_end_common.Common.Words.{words_bytes}
use spi_nnfront_end_common.Dsg.Database.{Region, app_ptr_table_byte_size, get_total_regions_size}
use spi_nnfront_end_common.Dsg.Generator.{Generator, new_generator}
use spi_nnfront_end_common.Dsg.Writing.{writing, Fills}
use spi_nnfront_end_common.Commands.Command.{MultiCastCommand}
use spi_nnfront_end_common.Commands.Sender.{Sender}
use spi_nnfront_end_common.Commands.Spec.{
  is_key, get_timed_commands_bytes, get_n_command_bytes, sdram_required, check_keys,
  get_simulation_header_array, generate_data_specification,
}
use spi_nnfront_end_common.Commands.Regions.{
  IsCommand, basic_words, timed_words, write_basic_commands_lem, write_timed_commands_lem,
  length-basic_words, length-timed_words,
}
use spi_nnfront_end_common.Commands.Reader.{
  content_of, read_list, timed_from, commands_from, received, timed_received, read_list-basic,
  read_list-timed,
}
use spi_nnfront_end_common.Commands.Table.{
  table, reserved, started, at_timed, at_start_resume, at_stop_pause, at_end, header_written,
}

-- The regions with their sizes and contents.

-- What the sender can hold and a word can say.
pub record IsSendable (s : Sender) : Type 0 where
  pub few_timed : length s.timed_commands < 2 ^ 32
  pub few_start_resume : length s.commands_at_start_resume < 2 ^ 32
  pub few_pause_stop : length s.commands_at_pause_stop < 2 ^ 32
  pub timed : All IsCommand s.timed_commands
  pub start_resume : All IsCommand s.commands_at_start_resume
  pub pause_stop : All IsCommand s.commands_at_pause_stop

Fills-basic :
    (cs : List MultiCastCommand) → Fills (get_n_command_bytes cs) (words_bytes (basic_words cs))
Fills-basic cs = (omega arith, length-basic_words cs, omega arith)

Fills-timed :
    (s : Sender) → Fills (get_timed_commands_bytes s) (words_bytes (timed_words s.timed_commands))
Fills-timed s = (omega arith, length-timed_words s.timed_commands, omega arith)

-- The regions of a sender.
abbrev regions_of : List ℕ → Sender → List Region
regions_of header s =
    table (get_timed_commands_bytes s) (get_n_command_bytes s.commands_at_start_resume)
      (get_n_command_bytes s.commands_at_pause_stop) (words_bytes header)
      (words_bytes (timed_words s.timed_commands))
      (words_bytes (basic_words s.commands_at_start_resume))
      (words_bytes (basic_words s.commands_at_pause_stop))

generated :
    (hash time_step port : ℕ) (allocated_key : ℕ → Option ℕ) (s : Sender)
    → check_keys allocated_key s.keys_to_partition_id ≡ ok tt
    → IsSendable s
    → generate_data_specification
        (get_simulation_header_array hash time_step port)
        allocated_key
        s
        (new_generator [])
      ≡ ok (
          writing 3
            (get_n_command_bytes s.commands_at_pause_stop)
            []
            (regions_of (get_simulation_header_array hash time_step port) s))
unfolding generate_data_specification
generated hash time_step port allocated_key s checked v =
    let a = get_timed_commands_bytes s in
    let b = get_n_command_bytes s.commands_at_start_resume in
    let c = get_n_command_bytes s.commands_at_pause_stop in
    let w = words_bytes (get_simulation_header_array hash time_step port) in
    let x = words_bytes (timed_words s.timed_commands) in
    let y = words_bytes (basic_words s.commands_at_start_resume) in
    let z = words_bytes (basic_words s.commands_at_pause_stop) in
    simp (
      checked,
      reserved a b c (omega arith) (omega arith) (omega arith),
      started a b c,
      header_written a b c hash time_step port,
      at_timed a b c w (omega arith) (omega arith),
      write_timed_commands_lem s.timed_commands (writing 1 a [] (table a b c w [] [] []))
          v.few_timed v.timed,
      at_start_resume a b c w x (Fills-timed s) (omega arith),
      write_basic_commands_lem s.commands_at_start_resume (writing 2 b [] (table a b c w x [] []))
          v.few_start_resume v.start_resume,
      at_stop_pause a b c w x y (Fills-basic s.commands_at_start_resume) (omega arith),
      write_basic_commands_lem s.commands_at_pause_stop (writing 3 c [] (table a b c w x y []))
          v.few_pause_stop v.pause_stop,
      at_end a b c w x y z (Fills-basic s.commands_at_pause_stop),
    )

-- The routing gives the partitions the keys that they want.
abbrev pub AllAllocated : (ℕ → Option ℕ) → List (ℕ × ℕ) → Type 0
AllAllocated allocated_key items = All (λ item. allocated_key item.1 ≡ some item.0) items

-- To one of them it gives another key, or none.
abbrev pub IsMismatched : (ℕ → Option ℕ) → List (ℕ × ℕ) → Type 0
IsMismatched allocated_key [] = ⊥
IsMismatched allocated_key (item ∷ items) =
    (allocated_key item.1 ≢ some item.0) ⊎ IsMismatched allocated_key items

checked :
    (allocated_key : ℕ → Option ℕ) (items : List (ℕ × ℕ))
    → AllAllocated allocated_key items
    → check_keys allocated_key items ≡ ok tt
unfolding check_keys
checked allocated_key [] h = refl
checked allocated_key (item ∷ items) h = rw h.0 (ground (arith, checked allocated_key items h.1))

is_key_wrong : (key : ℕ) (o : Option ℕ) → o ≢ some key → is_key key o ≡ err configuration_exception
is_key_wrong key none h = refl
is_key_wrong key (some n) h = elim (Bool-cases (n == key)) [
  | inl e ↦ absurd (h (ap some ((==_iff n key).0 e)))
  | inr e ↦ rw e refl
]

is_key-cases :
    (key : ℕ) (o : Option ℕ) → (is_key key o ≡ ok tt) ⊎ (is_key key o ≡ err configuration_exception)
is_key-cases key none = inr refl
is_key-cases key (some n) = elim (Bool-cases (n == key)) [
  | inl e ↦ rw e (inl refl)
  | inr e ↦ rw e (inr refl)
]

not_checked :
    (allocated_key : ℕ → Option ℕ) (items : List (ℕ × ℕ))
    → IsMismatched allocated_key items
    → check_keys allocated_key items ≡ err configuration_exception
unfolding check_keys
not_checked allocated_key [] h = absurd h
not_checked allocated_key (item ∷ items) (inl h) =
    rw (is_key_wrong item.0 (allocated_key item.1) h) refl
not_checked allocated_key (item ∷ items) (inr h) =
    elim (is_key-cases item.0 (allocated_key item.1)) [
      | inl e ↦ rw e (not_checked allocated_key items h)
      | inr e ↦ rw e refl
    ]

-- A key of a partition that is not the wanted one makes the sender's specification fail, whatever
-- else there is.
pub generate_data_specification_mismatch :
    (header : List ℕ) (allocated_key : ℕ → Option ℕ) (s : Sender) (g : Generator)
    → IsMismatched allocated_key s.keys_to_partition_id
    → generate_data_specification header allocated_key s g ≡ err configuration_exception
unfolding generate_data_specification
generate_data_specification_mismatch header allocated_key s g h =
    rw (not_checked allocated_key s.keys_to_partition_id h) refl

-- What the core reads of the regions, and how much SDRAM they take.
pub record IsRead (s : Sender) (regions : List Region) : Type 0 where
  pub timed :
      (content_of 1 regions >>= read_list timed_from) ≡ ok (map timed_received s.timed_commands)
  pub start_resume :
      (content_of 2 regions >>= read_list commands_from)
      ≡ ok (map received s.commands_at_start_resume)
  pub stop_pause :
      (content_of 3 regions >>= read_list commands_from)
      ≡ ok (map received s.commands_at_pause_stop)
  pub sdram : get_total_regions_size regions + app_ptr_table_byte_size + 2 * 4 ≡ sdram_required s

-- Where the routing gives the partitions the keys that they want, and the values fit in words, the
-- sender's specification is written without an exception. The core then reads each of the three lists
-- of commands back in the order in which they were added, and the regions take exactly the SDRAM that
-- the vertex asks for, less the pointer table and the two words of its allocation.
pub generate_data_specification-IsRead :
    (hash time_step port : ℕ) (allocated_key : ℕ → Option ℕ) (s : Sender)
    → AllAllocated allocated_key s.keys_to_partition_id
    → IsSendable s
    → (g : Generator) × (generate_data_specification
          (get_simulation_header_array hash time_step port)
          allocated_key
          s
          (new_generator [])
        ≡ ok g)
      × IsRead s g.regions
unfolding content_of get_total_regions_size
generate_data_specification-IsRead hash time_step port allocated_key s h v = (
  _,
  generated hash time_step port allocated_key s (checked allocated_key s.keys_to_partition_id h) v,
  record {
    timed = read_list-timed s.timed_commands v.few_timed v.timed;
    start_resume = read_list-basic s.commands_at_start_resume v.few_start_resume v.start_resume;
    stop_pause = read_list-basic s.commands_at_pause_stop v.few_pause_stop v.pause_stop;
    sdram = omega arith;
  },
)
