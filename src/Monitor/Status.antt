-- ===== src/Monitor/Status.antt =====
-- The status of reinjection, as it is read from a response (spinn_front_end_common/utilities/
-- utility_objs/reinjection_status.py and dpri_flags.py).
use spi_nnfront_end_common.Common.{
  ℕ, zero, suc, ◌+◌, ◌-◌, ◌*◌, ◌/◌, ◌%◌, ◌^◌, Bool, not, List, [], ◌∷◌, Result, ok, err,
  struct_error, leb, ◌==◌, if◌then◌else◌, drop, ◌>>=◌,
}
use spi_nnfront_end_common.Common.Words.{Bytes, unpack_words}

pub data DpriFlag : Type 0 where
  multicast point_to_point nearest_neighbour fixed_route : DpriFlag

abbrev pub flag_value : DpriFlag → ℕ
flag_value multicast = 1
flag_value point_to_point = 2
flag_value nearest_neighbour = 4
flag_value fixed_route = 8

pub record ReinjectionStatus : Type 0 where
  pub wait1_timeout : ℕ
  pub wait2_timeout : ℕ
  pub n_dropped_packets : ℕ
  pub n_missed_dropped_packets : ℕ
  pub n_dropped_packet_overflows : ℕ
  pub n_reinjected_packets : ℕ
  pub n_link_dumps : ℕ
  pub n_processor_dumps : ℕ
  pub flags : ℕ
  pub link_proc_bits : ℕ

abbrev pub status_of : List ℕ → Result ReinjectionStatus
status_of (a ∷ b ∷ c ∷ d ∷ e ∷ f ∷ g ∷ h ∷ i ∷ j ∷ []) = ok (record {
  wait1_timeout = a;
  wait2_timeout = b;
  n_dropped_packets = c;
  n_missed_dropped_packets = d;
  n_dropped_packet_overflows = e;
  n_reinjected_packets = f;
  n_link_dumps = g;
  n_processor_dumps = h;
  flags = i;
  link_proc_bits = j;
})
status_of _ = err struct_error

-- `ReInjectionStatus(data, offset)`
unfoldable pub read_status : Bytes → ℕ → Result ReinjectionStatus
read_status bytes offset = unpack_words 10 (drop offset bytes) >>= status_of

abbrev pub mantissa_of : ℕ → ℕ
mantissa_of value = value % 16

abbrev pub exponent_of : ℕ → ℕ
exponent_of value = (value / 2 ^ 4) % 16

-- The difference is never negative, as the power is at most 16.
unfoldable pub decode_router_timeout_value : ℕ → ℕ
decode_router_timeout_value value =
    if leb (exponent_of value) 4
    then ((mantissa_of value + 16) - 2 ^ (4 - exponent_of value)) * 2 ^ exponent_of value
    else (mantissa_of value + 16) * 2 ^ exponent_of value

abbrev pub router_wait1_timeout : ReinjectionStatus → ℕ
router_wait1_timeout s = decode_router_timeout_value s.wait1_timeout

abbrev pub router_wait1_timeout_parameters : ReinjectionStatus → ℕ × ℕ
router_wait1_timeout_parameters s = (mantissa_of s.wait1_timeout, exponent_of s.wait1_timeout)

abbrev pub router_wait2_timeout : ReinjectionStatus → ℕ
router_wait2_timeout s = decode_router_timeout_value s.wait2_timeout

abbrev pub router_wait2_timeout_parameters : ReinjectionStatus → ℕ × ℕ
router_wait2_timeout_parameters s = (mantissa_of s.wait2_timeout, exponent_of s.wait2_timeout)

-- `word & (1 << bit)` is not zero.
abbrev pub has_bit : ℕ → ℕ → Bool
has_bit word bit = not ((word / 2 ^ bit) % 2 == 0)

-- A flag's value is a power of two.
unfoldable pub flag_set : DpriFlag → ReinjectionStatus → Bool
flag_set flag s = not ((s.flags / flag_value flag) % 2 == 0)

-- `[n for n in range(…) if test]`, for `k` numbers from `n` on.
unfoldable pub numbers_where : (ℕ → Bool) → ℕ → ℕ → List ℕ
numbers_where test zero n = []
numbers_where test (suc k) n =
    let rest = numbers_where test k (n + 1) in if test n then n ∷ rest else rest

unfoldable pub links_dropped_from : ReinjectionStatus → List ℕ
links_dropped_from s = numbers_where (λ link. has_bit s.link_proc_bits link) 6 0

unfoldable pub processors_dropped_from : ReinjectionStatus → List ℕ
processors_dropped_from s = numbers_where (λ p. has_bit s.link_proc_bits (p + 6)) 18 0
