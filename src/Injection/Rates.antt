-- ===== src/Injection/Rates.antt =====
-- How many keys the source plans for in a time step (`_max_send_buffer_keys_per_timestep` of
-- spinn_front_end_common/utility_models/reverse_ip_tag_multicast_source_machine_vertex.py).
use spi_nnfront_end_common.Common.{
  ℕ, zero, suc, ◌+◌, ◌*◌, ◌==◌, List, [], ◌∷◌, ◌++◌, ltb, if◌then◌else◌,
}
use spi_nnfront_end_common.Injection.Source.{Times, same_times, array_list}

unfoldable pub count : ℕ → List ℕ → ℕ
count t [] = 0
count t (s ∷ ts) = (if t == s then 1 else 0) + count t ts

unfoldable pub maximum : List ℕ → ℕ
maximum [] = 0
maximum (t ∷ ts) = let rest = maximum ts in if ltb rest t then t else rest

-- `n` counts, from that of `t` on.
unfoldable pub counts_from : ℕ → ℕ → List ℕ → List ℕ
counts_from zero t ts = []
counts_from (suc n) t ts = count t ts ∷ counts_from n (t + 1) ts

-- `numpy.bincount`
unfoldable pub bincount : List ℕ → List ℕ
bincount [] = []
bincount (t ∷ ts) = counts_from (maximum (t ∷ ts) + 1) 0 (t ∷ ts)

-- `numpy.concatenate`
unfoldable pub concatenate : List (List ℕ) → List ℕ
concatenate [] = []
concatenate (ts ∷ tss) = ts ++ concatenate tss

-- The largest count is 0 where there are none.
unfoldable pub max_send_buffer_keys_per_timestep : Times → ℕ → ℕ
max_send_buffer_keys_per_timestep (array_list times) n_keys = maximum (bincount (concatenate times))
max_send_buffer_keys_per_timestep (same_times times) n_keys = n_keys * maximum (bincount times)
