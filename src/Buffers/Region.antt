-- ===== src/Buffers/Region.antt =====
-- The keys to send at given times (spinn_front_end_common/interface/buffer_management/
-- storage_objects/buffered_sending_region.py).
use spi_nnfront_end_common.Common.{
  ℕ, ◌+◌, Bool, true, false, Option, none, some, List, [], ◌∷◌, ◌++◌, Result, ok, err, key_error,
  index_error, assertion_error, ltb, if◌then◌else◌, length, get_elem?, ◌>>=◌,
}
use spi_nnfront_end_common.Common.Maps.{lookup, assign, remove}

-- `_buffer`, `_timestamps` and `_current_timestamp_pos`
pub record BufferedSendingRegion : Type 0 where
  pub buffer : List (ℕ × List ℕ)
  pub timestamps : List ℕ
  pub current_timestamp_pos : ℕ

abbrev pub empty_region : BufferedSendingRegion
empty_region = record { buffer = []; timestamps = []; current_timestamp_pos = 0 }

-- `bisect.insort`: behind the entries that are not greater.
unfoldable pub insort : ℕ → List ℕ → List ℕ
insort timestamp [] = timestamp ∷ []
insort timestamp (t ∷ ts) = if ltb timestamp t then timestamp ∷ t ∷ ts else t ∷ insort timestamp ts

-- What `add_key` does once it is known whether the timestamp is in the buffer.
abbrev pub append_key : ℕ → ℕ → BufferedSendingRegion → Option (List ℕ) → BufferedSendingRegion
append_key timestamp key r none = record r {
  timestamps = insort timestamp r.timestamps;
  buffer = assign timestamp (key ∷ []) r.buffer;
}
append_key timestamp key r (some keys) = record r {
  buffer = assign timestamp (keys ++ key ∷ []) r.buffer;
}

unfoldable pub add_key : ℕ → ℕ → BufferedSendingRegion → BufferedSendingRegion
add_key timestamp key r = append_key timestamp key r (lookup timestamp r.buffer)

unfoldable pub add_keys : ℕ → List ℕ → BufferedSendingRegion → BufferedSendingRegion
add_keys timestamp [] r = r
add_keys timestamp (key ∷ keys) r = add_keys timestamp keys (add_key timestamp key r)

abbrev pub n_timestamps : BufferedSendingRegion → ℕ
n_timestamps r = length r.timestamps

unfoldable pub get_n_keys : ℕ → BufferedSendingRegion → ℕ
get_n_keys timestamp r = elim (lookup timestamp r.buffer) [ none ↦ 0 | some keys ↦ length keys ]

unfoldable pub is_next_timestamp : BufferedSendingRegion → Bool
is_next_timestamp r = ltb r.current_timestamp_pos (length r.timestamps)

unfoldable pub next_timestamp : BufferedSendingRegion → Option ℕ
next_timestamp r = get_elem? r.timestamps r.current_timestamp_pos

-- `bool(self._buffer[timestamp])`
abbrev pub any_key : List ℕ → Bool
any_key [] = false
any_key (key ∷ keys) = true

unfoldable pub is_next_key : ℕ → BufferedSendingRegion → Bool
is_next_key timestamp r = elim (lookup timestamp r.buffer) [
  | none ↦ false
  | some keys ↦ any_key keys
]

-- `keys.pop()`: the last key, and the list without it.
unfoldable pub pop : List ℕ → Result (ℕ × List ℕ)
pop [] = err index_error
pop (key ∷ []) = ok (key, [])
pop (key ∷ k ∷ keys) = do popped ← pop (k ∷ keys); ok (popped.0, key ∷ popped.1)

-- An emptied entry is deleted, and the position moves on.
abbrev pub put_back : ℕ → List ℕ → BufferedSendingRegion → BufferedSendingRegion
put_back timestamp [] r = record r {
  buffer = remove timestamp r.buffer;
  current_timestamp_pos = r.current_timestamp_pos + 1;
}
put_back timestamp (key ∷ keys) r = record r { buffer = assign timestamp (key ∷ keys) r.buffer }

unfoldable pub next_key : BufferedSendingRegion → Result (ℕ × BufferedSendingRegion)
next_key r = do
  timestamp ← elim (next_timestamp r) [ none ↦ err assertion_error | some t ↦ ok t ]
  keys ← elim (lookup timestamp r.buffer) [ none ↦ err key_error | some keys ↦ ok keys ]
  popped ← pop keys
  ok (popped.0, put_back timestamp popped.1 r)

unfoldable pub rewind : BufferedSendingRegion → BufferedSendingRegion
rewind r = record r { current_timestamp_pos = 0 }

unfoldable pub clear : BufferedSendingRegion → BufferedSendingRegion
clear r = empty_region
