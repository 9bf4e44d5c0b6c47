-- ===== src/Injection/Fresh.antt =====
-- A region that was cleared and filled is at its first timestamp, and well kept.
use spi_nnfront_end_common.Common.{
  ℕ, ◌≡◌, refl, inl, inr, ◌∙◌, Option, some, Option-cases, List, [], ◌∷◌, zero, suc, ◌+◌,
  Bool-cases, get_elem?, arith,
}
use spi_nnfront_end_common.Common.Maps.{lookup}
use spi_nnfront_end_common.Common.Numbers.{member}
use spi_nnfront_end_common.Common.Sends.{Holds}
use spi_nnfront_end_common.Buffers.Region.{BufferedSendingRegion, empty_region, add_key, add_keys}
use spi_nnfront_end_common.Buffers.Pending.{IsWell, add_key-queue}
use spi_nnfront_end_common.Injection.Source.{
  Times, same_times, array_list, is_in_range, same_step, sorted_times, add_ticks, add_atoms,
  add_ticks_for_all, fill_times,
}
use spi_nnfront_end_common.Injection.Filled.{add_ticks-for_all}

pub record IsFresh (r : BufferedSendingRegion) : Type 0 where
  pub at_start : r.current_timestamp_pos ≡ 0
  pub well : IsWell r

empty_region-IsFresh : IsFresh empty_region
unfolding lookup member
empty_region-IsFresh = record {
  at_start = refl;
  well = record { started = omega arith; ascends = tt; held = λ t. inl (refl, refl) };
}

add_key-pos :
    (t key : ℕ) (r : BufferedSendingRegion)
    → (add_key t key r).current_timestamp_pos ≡ r.current_timestamp_pos
unfolding add_key
add_key-pos t key r = elim (Option-cases (lookup t r.buffer)) [
  | inl e ↦ rw e refl
  | inr (keys, e) ↦ rw e refl
]

add_key-IsFresh : (t key : ℕ) (r : BufferedSendingRegion) → IsFresh r → IsFresh (add_key t key r)
add_key-IsFresh t key r f = record {
  at_start = add_key-pos t key r ∙ f.at_start;
  well = (add_key-queue t key r f.well (rw f.at_start tt)).1;
}

add_keys-IsFresh :
    (t : ℕ) (keys : List ℕ) (r : BufferedSendingRegion) → IsFresh r → IsFresh (add_keys t keys r)
unfolding add_keys
add_keys-IsFresh t [] r f = f
add_keys-IsFresh t (key ∷ keys) r f =
    add_keys-IsFresh t keys (add_key t key r) (add_key-IsFresh t key r f)

module _ (first : ℕ) (end_step : Option ℕ) where
  add_ticks_for_all-IsFresh :
      (keys ticks : List ℕ) (r : BufferedSendingRegion)
      → IsFresh r
      → IsFresh (add_ticks_for_all first end_step keys ticks r)
  unfolding add_ticks_for_all
  add_ticks_for_all-IsFresh keys [] r f = f
  add_ticks_for_all-IsFresh keys (tick ∷ ticks) r f =
      elim (Bool-cases (is_in_range tick first end_step)) [
        | inl inside ↦ rw inside (
            add_ticks_for_all-IsFresh keys ticks (add_keys tick keys r)
              (add_keys-IsFresh tick keys r f))
        | inr outside ↦ rw outside (add_ticks_for_all-IsFresh keys ticks r f)
      ]

  add_atoms-IsFresh :
      (keys : List ℕ) (tss : List (List ℕ)) (n atom : ℕ) (r : BufferedSendingRegion)
      → IsFresh r
      → Holds IsFresh (add_atoms first end_step keys tss n atom r)
  unfolding add_atoms
  add_atoms-IsFresh keys tss zero atom r f = f
  add_atoms-IsFresh keys tss (suc n) atom r f = elim (Option-cases (get_elem? tss atom)) [
    | inl e ↦ rw e tt
    | inr (ts, at_ts) ↦ elim (Option-cases (get_elem? keys atom)) [
      | inl e ↦ rw (at_ts, e) tt
      | inr (key, at_key) ↦
          let filled : IsFresh (add_ticks first end_step key (sorted_times ts) r) =
            rw (add_ticks-for_all first end_step key (sorted_times ts) r)
              (add_ticks_for_all-IsFresh (key ∷ []) (sorted_times ts) r f) in
          rw (at_ts, at_key)
            (add_atoms-IsFresh keys tss n (atom + 1)
              (add_ticks first end_step key (sorted_times ts) r) filled)
    ]
  ]

  pub fill_times-IsFresh :
      (get_keys : ℕ → ℕ → List ℕ) (n_keys key_base : ℕ) (ts : Times)
      → Holds IsFresh (fill_times get_keys first end_step n_keys key_base ts empty_region)
  fill_times-IsFresh get_keys n_keys key_base (same_times []) = empty_region-IsFresh
  fill_times-IsFresh get_keys n_keys key_base (array_list []) = empty_region-IsFresh
  fill_times-IsFresh get_keys n_keys key_base (same_times (t ∷ ts)) =
      elim (Bool-cases (same_step (some first) end_step)) [
        | inl no_steps ↦ rw no_steps empty_region-IsFresh
        | inr steps ↦ rw steps (
            add_ticks_for_all-IsFresh (get_keys key_base n_keys) (sorted_times (t ∷ ts))
              empty_region empty_region-IsFresh)
      ]
  fill_times-IsFresh get_keys n_keys key_base (array_list (ts ∷ tss)) =
      elim (Bool-cases (same_step (some first) end_step)) [
        | inl no_steps ↦ rw no_steps empty_region-IsFresh
        | inr steps ↦ rw steps (
            add_atoms-IsFresh (get_keys key_base n_keys) (ts ∷ tss) n_keys 0 empty_region
              empty_region-IsFresh)
      ]
