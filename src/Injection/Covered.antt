-- ===== src/Injection/Covered.antt =====
-- Filling puts each key in at its times.
use spi_nnfront_end_common.Common.{
  ℕ, ◌≡◌, refl, sym, ap, inl, inr, true, false, ◌&&◌, Option, none, some, List, [], ◌∷◌, ok, ltb,
  leb, ==_iff, Bool-cases, length, arith, ◌>>=◌,
}
use spi_nnfront_end_common.Common.Maps.{lookup}
use spi_nnfront_end_common.Buffers.Region.{BufferedSendingRegion, empty_region, clear}
use spi_nnfront_end_common.Buffers.Pending.{keys_at}
use spi_nnfront_end_common.Injection.Source.{
  Source, Times, same_times, array_list, has_expected_length, is_in_range, same_step, sorted_times,
  add_ticks_for_all, fill_times, fill_buffer, key_or_zero, fill_send_buffer,
}
use spi_nnfront_end_common.Injection.Rates.{count}
use spi_nnfront_end_common.Injection.Filled.{
  ranged, times, atom_keys, keys_at-same_times, add_atoms_lem,
}

-- The keys that are to be sent at a time step.
abbrev pub planned : ℕ → List ℕ → Times → List ℕ
planned t keys (same_times ts) = times (count t ts) keys
planned t keys (array_list tss) = atom_keys t keys tss

-- What a region holds, at each time step.
abbrev pub HoldsPlan : ℕ → Option ℕ → List ℕ → Times → BufferedSendingRegion → Type 0
HoldsPlan first end_step keys ts region =
    (t : ℕ) → keys_at region.buffer t ≡ ranged t first end_step (planned t keys ts)

ranged-nil : (t first : ℕ) (end_step : Option ℕ) → ranged t first end_step [] ≡ []
ranged-nil t first end_step = elim (Bool-cases (is_in_range t first end_step)) [
  | inl e ↦ rw e refl
  | inr e ↦ rw e refl
]

-- A run of no time steps has none in its range.
ranged-no_steps :
    (t first : ℕ) (end_step : Option ℕ) (keys : List ℕ)
    → same_step (some first) end_step ≡ true
    → ranged t first end_step keys ≡ []
ranged-no_steps t first none keys h = cc
ranged-no_steps t first (some e) keys h =
    let outside : (leb first t && ltb t e) ≡ false = ground arith in rw outside refl

module _ (get_keys : ℕ → ℕ → List ℕ) (first : ℕ) (end_step : Option ℕ) (n_keys key_base : ℕ)
    (all_keys : length (get_keys key_base n_keys) ≡ n_keys) where
  pub fill_times-HoldsPlan :
      (ts : Times)
      → has_expected_length n_keys ts ≡ true
      → (r : BufferedSendingRegion) × (fill_times get_keys first end_step n_keys key_base ts
            empty_region
          ≡ ok r)
        × HoldsPlan first end_step (get_keys key_base n_keys) ts r
  unfolding lookup count
  fill_times-HoldsPlan (same_times []) h =
      (empty_region, refl, λ t. sym (ranged-nil t first end_step))
  fill_times-HoldsPlan (array_list []) h =
      (empty_region, refl, λ t. sym (ranged-nil t first end_step))
  fill_times-HoldsPlan (same_times (u ∷ us)) h =
      elim (Bool-cases (same_step (some first) end_step)) [
        | inl no_steps ↦
            (empty_region, rw no_steps refl, λ t. sym (ranged-no_steps t first end_step _ no_steps))
        | inr steps ↦ (
          add_ticks_for_all first end_step (get_keys key_base n_keys) (sorted_times (u ∷ us))
              empty_region,
          rw steps refl,
          keys_at-same_times first end_step (get_keys key_base n_keys) (u ∷ us) empty_region,
        )
      ]
  fill_times-HoldsPlan (array_list (ts ∷ tss)) h =
      elim (Bool-cases (same_step (some first) end_step)) [
        | inl no_steps ↦
            (empty_region, rw no_steps refl, λ t. sym (ranged-no_steps t first end_step _ no_steps))
        | inr steps ↦
            let n_times : length (ts ∷ tss) ≡ n_keys = (==_iff _ _).0 h in
            let (r, ran, holds) =
              add_atoms_lem first end_step (get_keys key_base n_keys) (ts ∷ tss) n_keys 0
                empty_region (omega (arith, all_keys)) (omega (arith, n_times)) in
            (r, rw steps ran, holds)
      ]

-- The source has a buffer, and times of the expected length.
pub record IsInstalled (s : Source) (ts : Times) : Type 0 where
  pub buffer : BufferedSendingRegion
  pub has_buffer : s.send_buffer ≡ some buffer
  pub has_times : s.send_buffer_times ≡ some ts
  pub expected : has_expected_length s.n_keys ts ≡ true

fill_buffer-some :
    (get_keys : ℕ → ℕ → List ℕ) (first : ℕ) (end_step : Option ℕ) (n_keys key_base : ℕ) (ts : Times)
    (r r' : BufferedSendingRegion)
    → fill_times get_keys first end_step n_keys key_base ts empty_region ≡ ok r'
    → fill_buffer get_keys first end_step n_keys key_base (some ts) (some r) ≡ ok (some r')
unfolding clear
fill_buffer-some get_keys first end_step n_keys key_base (same_times []) r r' e =
    ap (λ x. x >>= λ filled. ok (some filled)) e
fill_buffer-some get_keys first end_step n_keys key_base (same_times (t ∷ ts)) r r' e =
    ap (λ x. x >>= λ filled. ok (some filled)) e
fill_buffer-some get_keys first end_step n_keys key_base (array_list []) r r' e =
    ap (λ x. x >>= λ filled. ok (some filled)) e
fill_buffer-some get_keys first end_step n_keys key_base (array_list (t ∷ ts)) r r' e =
    ap (λ x. x >>= λ filled. ok (some filled)) e

-- What filling returns, once it is known what it puts in the buffer.
pub fill_send_buffer-ok :
    (get_keys : ℕ → ℕ → List ℕ) (first : ℕ) (end_step : Option ℕ) (s : Source) (ts : Times)
    (i : IsInstalled s ts) (r : BufferedSendingRegion)
    → fill_times get_keys first end_step s.n_keys (key_or_zero s.virtual_key) ts empty_region ≡ ok r
    → (same_step s.first_machine_time_step (some first) && same_step s.run_until_timesteps end_step)
      ≡ false
    → fill_send_buffer get_keys first end_step s
      ≡ ok (record s {
        first_machine_time_step = some first;
        run_until_timesteps = end_step;
        send_buffer = some r;
      })
unfolding fill_send_buffer
fill_send_buffer-ok get_keys first end_step s ts i r ran again =
    let base = key_or_zero s.virtual_key in
    let filled = fill_buffer-some get_keys first end_step s.n_keys base ts i.buffer r ran in
    simp (again, i.has_buffer, i.has_times, filled)

-- Where the source has a buffer and times of the expected length, there is a key for each atom, and
-- the run is not the one for which the buffer was filled last: filling returns, whatever was in the
-- buffer, and then the buffer holds at each time step of the run, and only there, the keys whose
-- times it is among, in the order of the atoms and each as often as the time is given.
pub fill_send_buffer-HoldsPlan :
    (get_keys : ℕ → ℕ → List ℕ) (first : ℕ) (end_step : Option ℕ) (s : Source) (ts : Times)
    → IsInstalled s ts
    → length (get_keys (key_or_zero s.virtual_key) s.n_keys) ≡ s.n_keys
    → (same_step s.first_machine_time_step (some first) && same_step s.run_until_timesteps end_step)
      ≡ false
    → (s' : Source) × (r : BufferedSendingRegion) × (fill_send_buffer get_keys first end_step s
        ≡ ok s')
      × (s'.send_buffer ≡ some r)
      × HoldsPlan first end_step (get_keys (key_or_zero s.virtual_key) s.n_keys) ts r
fill_send_buffer-HoldsPlan get_keys first end_step s ts i all_keys again =
    let (r, ran, holds) =
      fill_times-HoldsPlan get_keys first end_step s.n_keys (key_or_zero s.virtual_key) all_keys ts
        i.expected in
    (_, r, fill_send_buffer-ok get_keys first end_step s ts i r ran again, refl, holds)
