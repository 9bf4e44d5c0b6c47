-- ===== src/Injection/Planned.antt =====
-- No time step has more keys than the source plans for.
use spi_nnfront_end_common.Common.{
  ℕ, zero, suc, ◌+◌, ◌*◌, ◌≤◌, ◌<◌, ◌≡◌, refl, ap, inl, inr, false, ◌&&◌, Option, some, List, [],
  ◌∷◌, ◌++◌, ok, ltb, ltb→lt, ltb→le, ◌==◌, Bool-cases, length, length-append, times_le, arith,
}
use spi_nnfront_end_common.Buffers.Region.{BufferedSendingRegion}
use spi_nnfront_end_common.Buffers.Pending.{keys_at}
use spi_nnfront_end_common.Injection.Source.{
  Source, Times, same_times, array_list, is_in_range, same_step, key_or_zero, fill_send_buffer,
}
use spi_nnfront_end_common.Injection.Rates.{
  count, maximum, counts_from, bincount, concatenate, max_send_buffer_keys_per_timestep,
}
use spi_nnfront_end_common.Injection.Filled.{ranged, times, atom_keys}
use spi_nnfront_end_common.Injection.Covered.{planned, IsInstalled, fill_send_buffer-HoldsPlan}

count-above : (t : ℕ) (ts : List ℕ) → maximum ts < t → count t ts ≡ 0
unfolding count maximum
count-above t [] h = refl
count-above t (s ∷ ts) h = ground (arith, count-above t ts)

count-le-counts :
    (n s t : ℕ) (ts : List ℕ) → s ≤ t → t < s + n → count t ts ≤ maximum (counts_from n s ts)
unfolding counts_from maximum
count-le-counts zero s t ts p q = absurd (omega arith)
count-le-counts (suc n) s t ts p q = elim (Bool-cases (t == s)) [
  | inl e ↦ let e' : t ≡ s = ground arith in rw e' (ground arith)
  | inr e ↦
      let later : s + 1 ≤ t = ground arith in
      ground (arith, count-le-counts n (s + 1) t ts later (omega arith))
]

count-le-bincount : (t : ℕ) (ts : List ℕ) → count t ts ≤ maximum (bincount ts)
unfolding count bincount
count-le-bincount t [] = omega arith
count-le-bincount t (s ∷ ts) = elim (Bool-cases (ltb (maximum (s ∷ ts)) t)) [
  | inl e ↦ omega (arith, count-above t (s ∷ ts) (ltb→lt _ t e))
  | inr e ↦
      let le : t ≤ maximum (s ∷ ts) = ltb→le _ t e in
      count-le-counts (maximum (s ∷ ts) + 1) 0 t (s ∷ ts) (omega arith) (omega arith)
]

length-times : (n : ℕ) (keys : List ℕ) → length (times n keys) ≡ n * length keys
length-times zero keys = omega arith
length-times (suc n) keys = grind (arith, length-append keys (times n keys), length-times n keys)

count-append : (t : ℕ) (xs ys : List ℕ) → count t (xs ++ ys) ≡ count t xs + count t ys
unfolding count
count-append t [] ys = omega arith
count-append t (x ∷ xs) ys = omega (arith, count-append t xs ys)

length-atom_keys :
    (t : ℕ) (keys : List ℕ) (tss : List (List ℕ))
    → length (atom_keys t keys tss) ≤ count t (concatenate tss)
unfolding concatenate count
length-atom_keys t keys [] = omega arith
length-atom_keys t [] (ts ∷ tss) = omega arith
length-atom_keys t (key ∷ keys) (ts ∷ tss) = omega (
  arith,
  length-append (times (count t ts) (key ∷ [])) (atom_keys t keys tss),
  length-times (count t ts) (key ∷ []),
  length-atom_keys t keys tss,
  count-append t ts (concatenate tss),
)

planned-le :
    (t n_keys : ℕ) (keys : List ℕ) (ts : Times)
    → length keys ≡ n_keys
    → length (planned t keys ts) ≤ max_send_buffer_keys_per_timestep ts n_keys
unfolding max_send_buffer_keys_per_timestep
planned-le t n_keys keys (same_times ts) e = omega (
  arith,
  length-times (count t ts) keys,
  ap (λ n. maximum (bincount ts) * n) e,
  times_le (count t ts) (maximum (bincount ts)) (length keys) (count-le-bincount t ts),
)
planned-le t n_keys keys (array_list tss) e =
    omega (arith, length-atom_keys t keys tss, count-le-bincount t (concatenate tss))

length-ranged :
    (t first : ℕ) (end_step : Option ℕ) (keys : List ℕ)
    → length (ranged t first end_step keys) ≤ length keys
length-ranged t first end_step keys = elim (Bool-cases (is_in_range t first end_step)) [
  | inl e ↦ rw e (omega arith)
  | inr e ↦ rw e (omega arith)
]

-- Where the source has a buffer and times of the expected length, there is a key for each atom, and
-- the run is not the one for which the buffer was filled last: after filling, no time step has more
-- keys in the buffer than the source plans SDRAM for.
pub fill_send_buffer_bounded :
    (get_keys : ℕ → ℕ → List ℕ) (first : ℕ) (end_step : Option ℕ) (s : Source) (ts : Times)
    → IsInstalled s ts
    → length (get_keys (key_or_zero s.virtual_key) s.n_keys) ≡ s.n_keys
    → (same_step s.first_machine_time_step (some first) && same_step s.run_until_timesteps end_step)
      ≡ false
    → (s' : Source) × (r : BufferedSendingRegion) × (fill_send_buffer get_keys first end_step s
        ≡ ok s')
      × (s'.send_buffer ≡ some r)
      × ((t : ℕ) → length (keys_at r.buffer t) ≤ max_send_buffer_keys_per_timestep ts s.n_keys)
fill_send_buffer_bounded get_keys first end_step s ts i all_keys again =
    let keys = get_keys (key_or_zero s.virtual_key) s.n_keys in
    let (s', r, ran, buffer, holds) =
      fill_send_buffer-HoldsPlan get_keys first end_step s ts i all_keys again in
    (
      s',
      r,
      ran,
      buffer,
      λ t. omega (
        arith,
        ap length (holds t),
        length-ranged t first end_step (planned t keys ts),
        planned-le t s.n_keys keys ts all_keys,
      ),
    )
