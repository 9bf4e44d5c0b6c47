-- ===== src/Monitor/Control.antt =====
-- The messages that control reinjection (spinn_front_end_common/utilities/scp/
-- reinjector_control_process.py and spinn_front_end_common/utilities/utility_objs/
-- extra_monitor_scp_messages), and the monitor's settings (spinn_front_end_common/utility_models/
-- extra_monitor_support_machine_vertex.py).
use Prim.Native.Nat.{bit_or}
use spi_nnfront_end_common.Common.{
  ℕ, ◌*◌, ◌%◌, ◌^◌, Bool, true, false, Option, none, some, List, [], ◌∷◌, ◌++◌, ◌==◌, if◌then◌else◌,
}
use spi_nnfront_end_common.Common.Words.{Bytes}

-- ReinjectorSCPCommands
pub data ReinjectorCommand : Type 0 where
  set_router_wait1_timeout set_router_wait2_timeout set_packet_types get_status reset_counters exit
        clear :
      ReinjectorCommand

-- A request to the core `p` of the chip at `x`, `y`.
pub record Request : Type 0 where
  pub x : ℕ
  pub y : ℕ
  pub p : ℕ
  pub command : ReinjectorCommand
  pub reply_expected : Bool
  pub arguments : List ℕ
  pub bytes : Bytes

abbrev pub bool_value : Bool → ℕ
bool_value b = if b then 1 else 0

unfoldable pub set_router_timeout_message : ℕ → ℕ → ℕ → ℕ → ℕ → ℕ → Request
set_router_timeout_message x y p timeout_mantissa timeout_exponent wait = record {
  x = x;
  y = y;
  p = p;
  command = if wait == 1 then set_router_wait1_timeout else set_router_wait2_timeout;
  reply_expected = true;
  arguments = bit_or (timeout_mantissa % 16) ((timeout_exponent % 16) * 2 ^ 4) ∷ [];
  bytes = [];
}

-- The processors of a chip.
pub record CoreSubset : Type 0 where
  pub chip_x : ℕ
  pub chip_y : ℕ
  pub processor_ids : List ℕ

-- The two loops, over the chips and over their processors.
module _ (message : ℕ → ℕ → ℕ → Request) where
  unfoldable pub to_processors : ℕ → ℕ → List ℕ → List Request
  to_processors x y [] = []
  to_processors x y (p ∷ ps) = message x y p ∷ to_processors x y ps

  unfoldable pub to_core_subsets : List CoreSubset → List Request
  to_core_subsets [] = []
  to_core_subsets (c ∷ cs) = to_processors c.chip_x c.chip_y c.processor_ids ++ to_core_subsets cs

abbrev pub set_wait1_timeout : ℕ → ℕ → List CoreSubset → List Request
set_wait1_timeout mantissa exponent cores =
    to_core_subsets (λ x y p. set_router_timeout_message x y p mantissa exponent 1) cores

abbrev pub set_wait2_timeout : ℕ → ℕ → List CoreSubset → List Request
set_wait2_timeout mantissa exponent cores =
    to_core_subsets (λ x y p. set_router_timeout_message x y p mantissa exponent 2) cores

-- A request without arguments.
abbrev pub plain_message : ReinjectorCommand → Bool → ℕ → ℕ → ℕ → Request
plain_message command reply_expected x y p = record {
  x = x;
  y = y;
  p = p;
  command = command;
  reply_expected = reply_expected;
  arguments = [];
  bytes = [];
}

abbrev pub clear_queue : List CoreSubset → List Request
clear_queue cores = to_core_subsets (plain_message clear true) cores

abbrev pub send_reset_counters : List CoreSubset → List Request
send_reset_counters cores = to_core_subsets (plain_message reset_counters false) cores

-- ExtraMonitorSupportMachineVertex: which packets are reinjected.
pub record Monitor : Type 0 where
  pub reinject_multicast : Bool
  pub reinject_point_to_point : Bool
  pub reinject_nearest_neighbour : Bool
  pub reinject_fixed_route : Bool

abbrev pub set_packet_types_message : Monitor → ℕ → ℕ → ℕ → Request
set_packet_types_message m x y p = record {
  x = x;
  y = y;
  p = p;
  command = set_packet_types;
  reply_expected = true;
  arguments =
      bool_value m.reinject_multicast
      ∷ bool_value m.reinject_point_to_point
      ∷ bool_value m.reinject_fixed_route
      ∷ [];
  bytes = bool_value m.reinject_nearest_neighbour ∷ [];
}

abbrev pub or_before : Option Bool → Bool → Bool
or_before none before = before
or_before (some b) before = b

-- The monitor afterwards, and what is sent to the cores of all monitors.
unfoldable pub set_reinjection_packets :
    Option Bool
    → Option Bool
    → Option Bool
    → Option Bool
    → List CoreSubset
    → Monitor
    → Monitor × List Request
set_reinjection_packets point_to_point multicast nearest_neighbour fixed_route monitors m =
    let m' : Monitor = record {
      reinject_multicast = or_before multicast m.reinject_multicast;
      reinject_point_to_point = or_before point_to_point m.reinject_point_to_point;
      reinject_nearest_neighbour = or_before nearest_neighbour m.reinject_nearest_neighbour;
      reinject_fixed_route = or_before fixed_route m.reinject_fixed_route;
    } in
    (m', to_core_subsets (set_packet_types_message m') monitors)
