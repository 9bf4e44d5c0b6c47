-- ===== src/Injection/Source.antt =====
-- The state of the source and filling its buffer (spinn_front_end_common/utility_models/
-- reverse_ip_tag_multicast_source_machine_vertex.py). The keys of the slice come from another package,
-- and are an argument.
use spi_nnfront_end_common.Common.{
  ℕ, zero, suc, ◌+◌, Bool, true, false, not, ◌&&◌, Option, none, some, List, [], ◌∷◌, Result, ok,
  err, index_error, assertion_error, configuration_exception, ltb, leb, ◌==◌, if◌then◌else◌, length,
  get_elem?, ◌>>=◌, ◌>>◌, raise_if,
}
use spi_nnfront_end_common.Buffers.Region.{
  BufferedSendingRegion, empty_region, insort, add_key, add_keys, clear,
}

-- `_send_buffer_times`: one list for all keys, or a list for each.
pub data Times : Type 0 where
  same_times : List ℕ → Times
  array_list : List (List ℕ) → Times

pub record Source : Type 0 where
  pub n_keys : ℕ
  pub virtual_key : Option ℕ
  pub send_buffer : Option BufferedSendingRegion
  pub send_buffer_times : Option Times
  pub first_machine_time_step : Option ℕ
  pub run_until_timesteps : Option ℕ

-- `if len(send_buffer_times) != self._n_keys`, for a list of lists that is not empty.
abbrev pub has_expected_length : ℕ → Times → Bool
has_expected_length n_keys (same_times times) = true
has_expected_length n_keys (array_list []) = true
has_expected_length n_keys (array_list (ts ∷ tss)) = length (ts ∷ tss) == n_keys

unfoldable pub install_send_buffer : Times → Source → Result Source
install_send_buffer times s = do
  raise_if (not (has_expected_length s.n_keys times)) configuration_exception
  ok (record s { send_buffer = some empty_region; send_buffer_times = some times })

unfoldable pub clear_send_buffer : Source → Source
clear_send_buffer s = record s { send_buffer = none; send_buffer_times = none }

-- The setter of `send_buffer_times`.
unfoldable pub set_send_buffer_times : Option Times → Source → Result Source
set_send_buffer_times none s = ok (clear_send_buffer s)
set_send_buffer_times (some times) s = install_send_buffer times s

abbrev pub is_in_range : ℕ → ℕ → Option ℕ → Bool
is_in_range step first_step none = true
is_in_range step first_step (some end_step) = leb first_step step && ltb step end_step

abbrev pub same_step : Option ℕ → Option ℕ → Bool
same_step none none = true
same_step (some a) (some b) = a == b
same_step _ _ = false

-- `sorted(times)`
unfoldable pub sorted_times : List ℕ → List ℕ
sorted_times [] = []
sorted_times (t ∷ ts) = insort t (sorted_times ts)

-- The loop over the ticks of one atom.
unfoldable pub add_ticks : ℕ → Option ℕ → ℕ → List ℕ → BufferedSendingRegion → BufferedSendingRegion
add_ticks first end_step key [] region = region
add_ticks first end_step key (tick ∷ ticks) region =
    add_ticks first end_step key ticks
      (if is_in_range tick first end_step then add_key tick key region else region)

abbrev pub item {ℓ} : {A : Type ℓ} → Option A → Result A
item none = err index_error
item (some a) = ok a

-- The loop over `n` atoms from `atom` on.
unfoldable pub add_atoms :
    ℕ
    → Option ℕ
    → List ℕ
    → List (List ℕ)
    → ℕ
    → ℕ
    → BufferedSendingRegion
    → Result BufferedSendingRegion
add_atoms first end_step keys times zero atom region = ok region
add_atoms first end_step keys times (suc n) atom region = do
  ticks ← item (get_elem? times atom)
  key ← item (get_elem? keys atom)
  add_atoms first end_step keys times n (atom + 1)
      (add_ticks first end_step key (sorted_times ticks) region)

-- The loop over the ticks where all atoms have the same.
unfoldable pub add_ticks_for_all :
    ℕ → Option ℕ → List ℕ → List ℕ → BufferedSendingRegion → BufferedSendingRegion
add_ticks_for_all first end_step keys [] region = region
add_ticks_for_all first end_step keys (tick ∷ ticks) region =
    add_ticks_for_all first end_step keys ticks
      (if is_in_range tick first end_step then add_keys tick keys region else region)

abbrev pub key_or_zero : Option ℕ → ℕ
key_or_zero none = 0
key_or_zero (some key) = key

module _ (get_keys : ℕ → ℕ → List ℕ) where
  -- `_fill_send_buffer_1d` and `_fill_send_buffer_2d`
  abbrev pub fill_times :
      ℕ → Option ℕ → ℕ → ℕ → Times → BufferedSendingRegion → Result BufferedSendingRegion
  fill_times first end_step n_keys key_base (same_times []) region = ok region
  fill_times first end_step n_keys key_base (same_times (t ∷ ts)) region =
      if same_step (some first) end_step
      then ok region
      else ok (
          add_ticks_for_all first end_step (get_keys key_base n_keys) (sorted_times (t ∷ ts))
            region)
  fill_times first end_step n_keys key_base (array_list []) region = ok region
  fill_times first end_step n_keys key_base (array_list (ts ∷ tss)) region =
      if same_step (some first) end_step
      then ok region
      else add_atoms first end_step (get_keys key_base n_keys) (ts ∷ tss) n_keys 0 region

  abbrev pub fill_buffer :
      ℕ
      → Option ℕ
      → ℕ
      → ℕ
      → Option Times
      → Option BufferedSendingRegion
      → Result (Option BufferedSendingRegion)
  fill_buffer first end_step n_keys key_base none none = ok none
  fill_buffer first end_step n_keys key_base none (some region) = ok (some (clear region))
  fill_buffer first end_step n_keys key_base (some (same_times [])) none = ok none
  fill_buffer first end_step n_keys key_base (some (array_list [])) none = ok none
  fill_buffer first end_step n_keys key_base (some _) none = err assertion_error
  fill_buffer first end_step n_keys key_base (some times) (some region) = do
    filled ← fill_times first end_step n_keys key_base times (clear region)
    ok (some filled)

  -- The first time step of the run and its end are those of the data view.
  unfoldable pub fill_send_buffer : ℕ → Option ℕ → Source → Result Source
  fill_send_buffer first end_step s =
      if same_step s.first_machine_time_step (some first)
        && same_step s.run_until_timesteps end_step
      then ok s
      else do
        buffer ←
            fill_buffer first end_step s.n_keys (key_or_zero s.virtual_key) s.send_buffer_times
              s.send_buffer
        ok (record s {
          first_machine_time_step = some first;
          run_until_timesteps = end_step;
          send_buffer = buffer;
        })
