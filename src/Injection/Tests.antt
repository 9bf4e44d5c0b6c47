-- ===== src/Injection/Tests.antt =====
-- A source of two keys, and the theorems at it.
use spi_nnfront_end_common.Common.{
  ℕ, ◌+◌, ◌*◌, ◌^◌, ◌≤◌, ◌<◌, ◌≡◌, refl, none, some, List, [], ◌∷◌, ok, err,
  configuration_exception, length, arith,
}
use spi_nnfront_end_common.Buffers.Region.{BufferedSendingRegion, empty_region}
use spi_nnfront_end_common.Buffers.Pending.{keys_at}
use spi_nnfront_end_common.Injection.Source.{
  Source, Times, array_list, install_send_buffer, fill_send_buffer,
}
use spi_nnfront_end_common.Injection.Rates.{
  max_send_buffer_keys_per_timestep, bincount, maximum, counts_from, count, concatenate,
}
use spi_nnfront_end_common.Injection.Masks.{
  calculate_mask, bits_needed, generate_prefix, upper_half_word,
}
use spi_nnfront_end_common.Injection.Masked.{calculate_mask_lem}
use spi_nnfront_end_common.Injection.Covered.{
  planned, HoldsPlan, IsInstalled, fill_send_buffer-HoldsPlan,
}
use spi_nnfront_end_common.Injection.Filled.{ranged}
use spi_nnfront_end_common.Buffers.Manager.{Eieio}
use spi_nnfront_end_common.Injection.Loaded.{LoadsPlan, send_initial_messages-fill_send_buffer}
use spi_nnfront_end_common.Injection.Planned.{fill_send_buffer_bounded}

-- The key of each atom is the base key plus the number of the atom.
abbrev keys_from : ℕ → ℕ → List ℕ
keys_from base n = base ∷ (base + 1) ∷ []

-- The first atom sends at 7 and at 2, the second at 2 twice.
abbrev two_times : Times
two_times = array_list ((7 ∷ 2 ∷ []) ∷ (2 ∷ 2 ∷ []) ∷ [])

abbrev two_keys : Source
two_keys = record {
  n_keys = 2;
  virtual_key = some 0x10000;
  send_buffer = some empty_region;
  send_buffer_times = some two_times;
  first_machine_time_step = none;
  run_until_timesteps = none;
}

two_keys-IsInstalled : IsInstalled two_keys two_times
two_keys-IsInstalled = record {
  buffer = empty_region;
  has_buffer = refl;
  has_times = refl;
  expected = refl;
}

-- A list of times for one key is not one for two.
install_send_buffer_short :
    install_send_buffer (array_list ((7 ∷ []) ∷ [])) two_keys ≡ err configuration_exception
unfolding install_send_buffer
install_send_buffer_short = refl

max_send_buffer_keys_per_timestep_test : max_send_buffer_keys_per_timestep two_times 2 ≡ 3
unfolding max_send_buffer_keys_per_timestep bincount maximum counts_from count concatenate
max_send_buffer_keys_per_timestep_test = refl

generate_prefix_test : generate_prefix 0x12345678 upper_half_word ≡ 0x1234
unfolding generate_prefix
generate_prefix_test = refl

calculate_mask_test : calculate_mask 256 ≡ 0xFFFFFE00
unfolding calculate_mask bits_needed
calculate_mask_test = refl

fill_send_buffer-HoldsPlan_example :
    (s' : Source) × (r : BufferedSendingRegion) × (fill_send_buffer keys_from 0 (some 5) two_keys
      ≡ ok s')
    × (s'.send_buffer ≡ some r)
    × HoldsPlan 0 (some 5) (keys_from 0x10000 2) two_times r
fill_send_buffer-HoldsPlan_example =
    fill_send_buffer-HoldsPlan keys_from 0 (some 5) two_keys two_times two_keys-IsInstalled refl
      refl

fill_send_buffer_bounded_example :
    (s' : Source) × (r : BufferedSendingRegion) × (fill_send_buffer keys_from 0 (some 5) two_keys
      ≡ ok s')
    × (s'.send_buffer ≡ some r)
    × ((t : ℕ) → length (keys_at r.buffer t) ≤ max_send_buffer_keys_per_timestep two_times 2)
fill_send_buffer_bounded_example =
    fill_send_buffer_bounded keys_from 0 (some 5) two_keys two_times two_keys-IsInstalled refl refl

-- Messages of a six-byte header; a region of 64 bytes.
abbrev eieio : Eieio
eieio = record { header_size = 6; min_message_size = 10; stop_request_size = 4 }

send_initial_messages-fill_send_buffer_example :
    (s' : Source) × (r : BufferedSendingRegion) × (fill_send_buffer keys_from 0 (some 5) two_keys
      ≡ ok s')
    × (s'.send_buffer ≡ some r)
    × LoadsPlan eieio (λ t. ranged t 0 (some 5) (planned t (keys_from 0x10000 2) two_times)) 2 64 r
send_initial_messages-fill_send_buffer_example =
    send_initial_messages-fill_send_buffer eieio 2 64 keys_from 0 (some 5) two_keys two_times
      two_keys-IsInstalled refl refl

calculate_mask_lem_example :
    (free : ℕ) × (calculate_mask 100 + 2 ^ free ≡ 2 ^ 32) × (100 < 2 ^ free) × (2 ^ free ≤ 2 * 100)
calculate_mask_lem_example = calculate_mask_lem 100 (omega arith) (omega arith)
