-- ===== src/Injection/Masks.antt =====
-- Masks for a number of keys (spinn_front_end_common/utility_models/
-- reverse_ip_tag_multicast_source_machine_vertex.py).
use spi_nnfront_end_common.Common.{ℕ, zero, suc, ◌-◌, ◌/◌, ◌%◌, ◌^◌, if◌then◌else◌, ◌==◌}

-- `n.bit_length()`: of the number `n` with at most `fuel` bits.
unfoldable pub bits_needed : ℕ → ℕ → ℕ
bits_needed zero n = 0
bits_needed (suc fuel) n = let rest = bits_needed fuel (n / 2) in if n == 0 then 0 else suc rest

abbrev pub bit_length : ℕ → ℕ
bit_length n = bits_needed n n

-- For fewer than 2^32 neurons; beyond, Python's mask is negative.
unfoldable pub calculate_mask : ℕ → ℕ
calculate_mask n_neurons = 0xFFFFFFFF - (2 ^ bit_length n_neurons - 1)

pub data EieioPrefix : Type 0 where
  lower_half_word upper_half_word : EieioPrefix

unfoldable pub generate_prefix : ℕ → EieioPrefix → ℕ
generate_prefix virtual_key lower_half_word = virtual_key % 2 ^ 16
generate_prefix virtual_key upper_half_word = (virtual_key / 2 ^ 16) % 2 ^ 16
