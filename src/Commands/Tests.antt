-- ===== src/Commands/Tests.antt =====
-- Two vertices that share a key.
use spi_nnfront_end_common.Common.{
  ℕ, ◌+◌, ◌≡◌, ◌≢◌, refl, inl, true, none, some, List, [], ◌∷◌, ok, err, configuration_exception,
  All, arith, Option,
}
use spi_nnfront_end_common.Common.Int.{pos}
use spi_nnfront_end_common.Common.Numbers.{member, update, add}
use spi_nnfront_end_common.Common.Maps.{lookup, assign}
use spi_nnfront_end_common.Dsg.Generator.{Generator, new_generator}
use spi_nnfront_end_common.Commands.Command.{MultiCastCommand, new_command}
use spi_nnfront_end_common.Commands.Sender.{
  Sender, Request, new_sender, add_partitions, add_commands, add_requests, commands_of, edges_to,
  edges_of, get_edges_and_partitions,
}
use spi_nnfront_end_common.Commands.Spec.{get_simulation_header_array, generate_data_specification}
use spi_nnfront_end_common.Commands.Partitions.{IsServed, add_requests-IsServed}
use spi_nnfront_end_common.Commands.Written.{
  IsRead, IsSendable, generate_data_specification-IsRead, generate_data_specification_mismatch,
}

abbrev start : MultiCastCommand
start = record { key = 0x40; payload = some 7; time = none; repeat = 2; delay_between_repeats = 10 }

abbrev at_five : MultiCastCommand
at_five = record {
  key = 0x41;
  payload = none;
  time = some 5;
  repeat = 0;
  delay_between_repeats = 0;
}

start_made : new_command 0x40 (some 7) none (pos 2) (pos 10) ≡ ok start
unfolding new_command
start_made = refl

delay_refused : new_command 0x40 none none (pos 0) (pos 10) ≡ err configuration_exception
unfolding new_command
delay_refused = refl

abbrev requests : List Request
requests =
    record {
      start_resume_commands = start ∷ [];
      pause_stop_commands = [];
      timed_commands = at_five ∷ [];
      vertex = 1;
    }
    ∷ record {
      start_resume_commands = start ∷ [];
      pause_stop_commands = [];
      timed_commands = [];
      vertex = 2;
    }
    ∷ []

abbrev as_is : List ℕ → List ℕ
as_is s = s

abbrev sender : Sender
sender = record {
  commands_at_start_resume = start ∷ start ∷ [];
  commands_at_pause_stop = [];
  timed_commands = at_five ∷ [];
  keys_to_partition_id = (0x40, 0) ∷ (0x41, 1) ∷ [];
  partition_id_keys = (0, 0x40) ∷ (1, 0x41) ∷ [];
  edge_partition_id_counter = 2;
  vertex_to_key_map = (1, 0x40 ∷ 0x41 ∷ []) ∷ (2, 0x40 ∷ []) ∷ [];
}

sender_filled : add_requests as_is requests new_sender ≡ sender
unfolding add_requests add_commands add_partitions update add lookup assign
sender_filled = refl

add_requests-IsServed_example :
    ((j k n : ℕ)
      → lookup j (add_requests as_is requests new_sender).keys_to_partition_id ≡ some n
      → lookup k (add_requests as_is requests new_sender).keys_to_partition_id ≡ some n
      → j ≡ k)
    × All
        (λ c. IsServed (add_requests as_is requests new_sender) c.key)
        (commands_of (add_requests as_is requests new_sender))
add_requests-IsServed_example = add_requests-IsServed as_is (λ k s. refl) requests

-- The second vertex has no edge for the key that it shares with the first.
one_edge_for_shared_key :
    get_edges_and_partitions as_is (λ v. true) sender ≡ ok ((1, 0) ∷ (1, 1) ∷ [])
unfolding get_edges_and_partitions edges_of edges_to member lookup add
one_edge_for_shared_key = refl

generate_data_specification-IsRead_example :
    (g : Generator) × (generate_data_specification
        (get_simulation_header_array 0xABCD 1000 1)
        (λ n. some (0x40 + n))
        sender
        (new_generator [])
      ≡ ok g)
    × IsRead sender g.regions
generate_data_specification-IsRead_example =
    generate_data_specification-IsRead 0xABCD 1000 1 (λ n. some (0x40 + n)) sender
      (refl, (refl, tt)) sendable
  where
    sendable : IsSendable sender
    sendable = record {
      few_timed = omega arith;
      few_start_resume = omega arith;
      few_pause_stop = omega arith;
      timed = omega arith;
      start_resume = omega arith;
      pause_stop = omega arith;
    }

generate_data_specification_mismatch_example :
    generate_data_specification
      (get_simulation_header_array 0xABCD 1000 1)
      (λ n. none)
      sender
      (new_generator [])
    ≡ err configuration_exception
generate_data_specification_mismatch_example =
    generate_data_specification_mismatch (get_simulation_header_array 0xABCD 1000 1) (λ n. none)
      sender (new_generator []) (inl none_given)
  where
    none_given : ◌≢◌ {A = Option ℕ} none (some 0x40)
    none_given e = cc
