-- ===== src/Commands/Spec.antt =====
-- The data specification of the sender (spinn_front_end_common/utility_models/
-- command_sender_machine_vertex.py). The words of the simulation header and the keys that the routing
-- gives to the partitions are arguments.
use spi_nnfront_end_common.Common.{
  ℕ, ◌+◌, ◌*◌, ◌^◌, Option, none, some, List, [], ◌∷◌, Result, ok, err, value_error,
  configuration_exception, leb, not, ◌==◌, length, ◌>>=◌, ◌>>◌, raise_if,
}
use spi_nnfront_end_common.Common.Words.{word_bytes, words_bytes}
use spi_nnfront_end_common.Dsg.Generator.{
  Generator, asserted, reserve_memory_region, switch_write_focus, write_value, write_array,
  end_specification,
}
use spi_nnfront_end_common.Commands.Command.{MultiCastCommand, or_zero, has_payload}
use spi_nnfront_end_common.Commands.Sender.{Sender}

-- SIMULATION_N_BYTES
abbrev pub simulation_n_bytes : ℕ
simulation_n_bytes = 3 * 4

-- SYSTEM_BYTES_REQUIREMENT
abbrev pub system_bytes_requirement : ℕ
system_bytes_requirement = (392 + 2 * 4) + simulation_n_bytes

-- `get_provenance_data_size`: N_SYSTEM_PROVENANCE_WORDS and what the vertex adds.
abbrev pub get_provenance_data_size : ℕ → ℕ
get_provenance_data_size n_additional_data_items = (6 + n_additional_data_items) * 4

abbrev pub get_timed_commands_bytes : Sender → ℕ
get_timed_commands_bytes s = 4 + (4 + 5 * 4) * length s.timed_commands

abbrev pub get_n_command_bytes : List MultiCastCommand → ℕ
get_n_command_bytes commands = 4 + (5 * 4) * length commands

abbrev pub sdram_required : Sender → ℕ
sdram_required s =
    get_timed_commands_bytes s
    + get_n_command_bytes s.commands_at_start_resume
    + get_n_command_bytes s.commands_at_pause_stop
    + system_bytes_requirement
    + get_provenance_data_size 1

-- `spec.write_value(value)`: with the type UINT32, which checks the value.
unfoldable pub write_uint32 : ℕ → Generator → Result Generator
write_uint32 value g = do
  content ← asserted g.content
  raise_if (leb (2 ^ 32) value) value_error
  write_value (word_bytes value) 4 g

unfoldable pub write_command : MultiCastCommand → Generator → Result Generator
write_command command g = do
  g1 ← write_uint32 command.key g
  g2 ← write_uint32 (has_payload command.payload) g1
  g3 ← write_uint32 (or_zero command.payload) g2
  g4 ← write_uint32 command.repeat g3
  write_uint32 command.delay_between_repeats g4

unfoldable pub write_each : List MultiCastCommand → Generator → Result Generator
write_each [] g = ok g
write_each (command ∷ commands) g = do g' ← write_command command g; write_each commands g'

unfoldable pub write_basic_commands : List MultiCastCommand → Generator → Result Generator
write_basic_commands commands g = do g' ← write_uint32 (length commands) g; write_each commands g'

unfoldable pub write_each_timed : List MultiCastCommand → Generator → Result Generator
write_each_timed [] g = ok g
write_each_timed (command ∷ commands) g = do
  g1 ← write_uint32 (or_zero command.time) g
  g2 ← write_command command g1
  write_each_timed commands g2

unfoldable pub write_timed_commands : List MultiCastCommand → Generator → Result Generator
write_timed_commands timed_commands g = do
  g' ← write_uint32 (length timed_commands) g
  write_each_timed timed_commands g'

unfoldable pub reserve_memory_regions : ℕ → ℕ → ℕ → Generator → Result Generator
reserve_memory_regions time_command_size start_command_size end_command_size g = do
  g1 ← reserve_memory_region 0 simulation_n_bytes none g
  g2 ← reserve_memory_region 1 time_command_size none g1
  g3 ← reserve_memory_region 2 start_command_size none g2
  g4 ← reserve_memory_region 3 end_command_size none g3
  reserve_memory_region 4 (get_provenance_data_size 1) none g4

-- `if allocated_mc_key != mc_key`, where no key may have been given.
abbrev pub is_key : ℕ → Option ℕ → Result (Unit {0})
is_key mc_key none = err configuration_exception
is_key mc_key (some allocated) = raise_if (not (allocated == mc_key)) configuration_exception

unfoldable pub check_keys : (ℕ → Option ℕ) → List (ℕ × ℕ) → Result (Unit {0})
check_keys allocated_key [] = ok tt
check_keys allocated_key (item ∷ items) = do
  is_key item.0 (allocated_key item.1)
  check_keys allocated_key items

-- `get_simulation_header_array`: the hash of the binary's name, the time step and the port.
abbrev pub get_simulation_header_array : ℕ → ℕ → ℕ → List ℕ
get_simulation_header_array application_name_hash time_step_us sdp_port =
    application_name_hash ∷ time_step_us ∷ sdp_port ∷ []

unfoldable pub generate_data_specification :
    List ℕ → (ℕ → Option ℕ) → Sender → Generator → Result Generator
generate_data_specification header allocated_key s g = do
  check_keys allocated_key s.keys_to_partition_id
  g1 ←
      reserve_memory_regions (get_timed_commands_bytes s)
        (get_n_command_bytes s.commands_at_start_resume)
        (get_n_command_bytes s.commands_at_pause_stop) g
  g2 ← switch_write_focus 0 g1
  g3 ← write_array (words_bytes header) g2
  g4 ← switch_write_focus 1 g3
  g5 ← write_timed_commands s.timed_commands g4
  g6 ← switch_write_focus 2 g5
  g7 ← write_basic_commands s.commands_at_start_resume g6
  g8 ← switch_write_focus 3 g7
  g9 ← write_basic_commands s.commands_at_pause_stop g8
  end_specification g9
