-- ===== src/Commands/Sender.antt =====
-- The sender's commands and partitions (spinn_front_end_common/utility_models/
-- command_sender_machine_vertex.py). A vertex is a number, the partition "COMMANDS3" the number 3.
-- The order in which Python runs through a set is the argument `in_set_order`.
use spi_nnfront_end_common.Common.{
  ℕ, ◌+◌, Bool, Option, none, some, List, [], ◌∷◌, ◌++◌, map, Result, ok, err, key_error,
  if◌then◌else◌, ◌>>=◌,
}
use spi_nnfront_end_common.Common.Numbers.{add, update, member}
use spi_nnfront_end_common.Common.Maps.{lookup, assign}
use spi_nnfront_end_common.Commands.Command.{MultiCastCommand}

pub record Sender : Type 0 where
  pub commands_at_start_resume : List MultiCastCommand
  pub commands_at_pause_stop : List MultiCastCommand
  pub timed_commands : List MultiCastCommand
  pub keys_to_partition_id : List (ℕ × ℕ)
  pub partition_id_keys : List (ℕ × ℕ)
  pub edge_partition_id_counter : ℕ
  pub vertex_to_key_map : List (ℕ × List ℕ)

abbrev pub new_sender : Sender
new_sender = record {
  commands_at_start_resume = [];
  commands_at_pause_stop = [];
  timed_commands = [];
  keys_to_partition_id = [];
  partition_id_keys = [];
  edge_partition_id_counter = 0;
  vertex_to_key_map = [];
}

abbrev pub keys_of : List MultiCastCommand → List ℕ
keys_of cs = map (λ c. c.key) cs

-- `if key not in self._keys_to_partition_id`: the partition of the key is given.
abbrev pub new_partition : Option ℕ → ℕ → Sender → Sender
new_partition (some n) key s = s
new_partition none key s = record s {
  keys_to_partition_id = assign key s.edge_partition_id_counter s.keys_to_partition_id;
  partition_id_keys = assign s.edge_partition_id_counter key s.partition_id_keys;
  edge_partition_id_counter = s.edge_partition_id_counter + 1;
}

unfoldable pub add_partitions : List ℕ → Sender → Sender
add_partitions [] s = s
add_partitions (key ∷ keys) s =
    add_partitions keys (new_partition (lookup key s.keys_to_partition_id) key s)

-- "the mapping between keys and partitions": the key of a partition, with a mask of ones.
unfoldable pub get_fixed_key_and_mask : ℕ → Sender → Result (ℕ × ℕ)
get_fixed_key_and_mask partition_id s = elim (lookup partition_id s.partition_id_keys) [
  | none ↦ err key_error
  | some key ↦ ok (key, 0xFFFFFFFF)
]

-- An edge to the vertex, in the partition.
abbrev pub Edge : Type 0
Edge = ℕ × ℕ

-- `self._keys_to_partition_id[key]`
abbrev pub partition_of : ℕ → Sender → Result ℕ
partition_of key s = elim (lookup key s.keys_to_partition_id) [
  | none ↦ err key_error
  | some n ↦ ok n
]

-- The loop over the keys of a vertex, with `keys_added` and the edges so far.
unfoldable pub edges_to : Sender → ℕ → List ℕ → List ℕ → List Edge → Result (List ℕ × List Edge)
edges_to s vertex [] keys_added edges = ok (keys_added, edges)
edges_to s vertex (key ∷ keys) keys_added edges =
    let rest = (do
      partition_id ← partition_of key s
      edges_to s vertex keys (add key keys_added) (edges ++ (vertex, partition_id) ∷ [])) in
    let skipped = edges_to s vertex keys keys_added edges in
    if member key keys_added then skipped else rest

abbrev pub commands_of : Sender → List MultiCastCommand
commands_of s = s.commands_at_start_resume ++ s.commands_at_pause_stop ++ s.timed_commands

-- The arguments of one call of `add_commands`.
pub record Request : Type 0 where
  pub start_resume_commands : List MultiCastCommand
  pub pause_stop_commands : List MultiCastCommand
  pub timed_commands : List MultiCastCommand
  pub vertex : ℕ

module _ (in_set_order : List ℕ → List ℕ) where
  unfoldable pub add_commands :
      List MultiCastCommand → List MultiCastCommand → List MultiCastCommand → ℕ → Sender → Sender
  add_commands start_resume_commands pause_stop_commands timed_commands vertex_to_send_to s =
      let command_keys =
        update
          (keys_of start_resume_commands ++ keys_of pause_stop_commands ++ keys_of timed_commands)
          [] in
      add_partitions (in_set_order command_keys) (record s {
        commands_at_start_resume = s.commands_at_start_resume ++ start_resume_commands;
        commands_at_pause_stop = s.commands_at_pause_stop ++ pause_stop_commands;
        timed_commands = s.timed_commands ++ timed_commands;
        vertex_to_key_map = assign vertex_to_send_to command_keys s.vertex_to_key_map;
      })

  -- The calls for the vertices that one sender serves (command_sender_adder.py).
  unfoldable pub add_requests : List Request → Sender → Sender
  add_requests [] s = s
  add_requests (r ∷ rs) s =
      add_requests rs
        (add_commands r.start_resume_commands r.pause_stop_commands r.timed_commands r.vertex s)

  -- The loop over the vertices of the wanted type.
  unfoldable pub edges_of :
      (ℕ → Bool) → Sender → List (ℕ × List ℕ) → List ℕ → List Edge → Result (List Edge)
  edges_of is_vertex_type s [] keys_added edges = ok edges
  edges_of is_vertex_type s (item ∷ items) keys_added edges =
      let skipped = edges_of is_vertex_type s items keys_added edges in
      let rest = (do
        made ← edges_to s item.0 (in_set_order item.1) keys_added edges
        edges_of is_vertex_type s items made.0 made.1) in
      if is_vertex_type item.0 then rest else skipped

  unfoldable pub get_edges_and_partitions : (ℕ → Bool) → Sender → Result (List Edge)
  get_edges_and_partitions is_vertex_type s = edges_of is_vertex_type s s.vertex_to_key_map [] []
