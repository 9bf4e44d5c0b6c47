-- ===== src/Gatherer.antt =====
-- The data speed-up packet gatherer: the constants of the protocol, the object's state and the
-- messages that both directions use.
-- spinn_front_end_common/utility_models/data_speed_up_packet_gatherer_machine_vertex.py
pub mod DataIn
pub mod DataOut
use native.Mathlib.Nat.{div-add-mod, mod-lt}
use spi_nnfront_end_common.Common.{
  ℕ, Error, zero, suc, ◌+◌, ◌-◌, ◌*◌, ◌/◌, ◌%◌, ◌<◌, ◌≤◌, ◌≡◌, Bool, Option, none, some, List,
  Result, ok, err, spinn_front_end_exception, assertion_error, arith, ap, sym, inl, inr, Bool-cases,
  ◌==◌, if◌then◌else◌,
}
use spi_nnfront_end_common.Common.Words.{Bytes}

abbrev pub bytes_per_word : ℕ
bytes_per_word = 4

-- TRANSACTION_ID_CAP
abbrev pub transaction_id_cap : ℕ
transaction_id_cap = 0xFFFFFFFF

abbrev pub timeout_retry_limit : ℕ
timeout_retry_limit = 100

abbrev pub words_per_full_packet : ℕ
words_per_full_packet = 68

abbrev pub words_for_command_n_missing_transaction : ℕ
words_for_command_n_missing_transaction = 3

abbrev pub words_for_command_transaction : ℕ
words_for_command_transaction = 1 + 1

abbrev pub bytes_for_seq_and_transaction_id : ℕ
bytes_for_seq_and_transaction_id = (1 + 1) * bytes_per_word

abbrev pub words_per_full_packet_with_sequence_num : ℕ
words_per_full_packet_with_sequence_num = words_per_full_packet - 1 - 1

abbrev pub words_for_command_and_key : ℕ
words_for_command_and_key = 3

abbrev pub bytes_for_reception_command_and_address_header : ℕ
bytes_for_reception_command_and_address_header = 2 * bytes_per_word

abbrev pub bytes_in_full_packet_with_key : ℕ
bytes_in_full_packet_with_key = (words_per_full_packet - words_for_command_and_key) * bytes_per_word

-- `divmod` and round up; the divisor is asserted to be positive.
unfoldable pub ceildiv : ℕ → ℕ → Result ℕ
ceildiv dividend zero = err assertion_error
ceildiv dividend (suc d) = ok (dividend / suc d + (if dividend % suc d == 0 then 0 else 1))

pub record Placement : Type 0 where
  pub x : ℕ
  pub y : ℕ
  pub p : ℕ

-- SDP_PORTS and SDPFlag, the members that are used here.
pub data SdpPort : Type 0 where
  extra_monitor_core_data_in_speed_up extra_monitor_core_data_speed_up : SdpPort

pub data SdpFlag : Type 0 where
  reply_not_expected : SdpFlag

pub record SdpMessage : Type 0 where
  pub destination_chip_x : ℕ
  pub destination_chip_y : ℕ
  pub destination_cpu : ℕ
  pub destination_port : SdpPort
  pub flags : SdpFlag
  pub payload : Bytes

-- What `connection.receive` yields: a packet, or SpinnmanTimeoutException.
pub data Event : Type 0 where
  packet : Bytes → Event
  timeout : Event

-- The fields that the two transfer directions keep; `view` is a view of `output`.
pub record Gatherer : Type 0 where
  pub known_placement : Option Placement
  pub transaction_id : ℕ
  pub coord_word : Option ℕ
  pub max_seq_num : ℕ
  pub missing_seq_nums_data_in : List (List ℕ)
  pub output : Option Bytes

-- `_placement`
unfoldable pub placement : Gatherer → Result Placement
placement g = elim g.known_placement [ none ↦ err spinn_front_end_exception | some p ↦ ok p ]

rounded_up_bounds :
    (n d t r q : ℕ)
    → suc d * t + r ≡ n
    → r < suc d
    → q ≡ t + (if r == 0 then 0 else 1)
    → (n ≤ q * suc d) × (q * suc d < n + suc d)
rounded_up_bounds n d t r q e lt h = elim (Bool-cases (r == 0)) [
  | inl whole ↦
      let same : q ≡ t = ground arith in
      let none_left : r ≡ 0 = ground arith in
      (omega (arith, ap (λ k. k * suc d) same), omega (arith, ap (λ k. k * suc d) same))
  | inr part ↦
      let more : q ≡ t + 1 = ground arith in
      let some_left : 0 < r = ground arith in
      (omega (arith, ap (λ k. k * suc d) more), omega (arith, ap (λ k. k * suc d) more))
]

ok_injective : {a b : ℕ} → ok a ≡ ok b → a ≡ b
ok_injective e = cc

-- The rounded-up quotient is the least number of packets that hold the dividend.
pub ceildiv_bounds : (n d q : ℕ) → ceildiv n d ≡ ok q → (n ≤ q * d) × (q * d < n + d)
unfolding ceildiv
ceildiv_bounds n zero q e = ground arith
ceildiv_bounds n (suc d) q e =
    rounded_up_bounds n d (n / suc d) (n % suc d) q (div-add-mod n (suc d)) (mod-lt n (omega arith))
      (sym (ok_injective e))

pub ceildiv-total : (n d : ℕ) (x : Error) → ¬ (ceildiv n (suc d) ≡ err x)
unfolding ceildiv
ceildiv-total n d x e = cc
