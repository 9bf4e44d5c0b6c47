-- ===== src/Injection/Loaded.antt =====
-- What the buffer manager loads of a source that was filled (spinn_front_end_common/utility_models/
-- reverse_ip_tag_multicast_source_machine_vertex.py, whose send buffer spinn_front_end_common/
-- interface/buffer_management/buffer_manager.py takes).
use mathlib.Core.Path.{subst}
use spi_nnfront_end_common.Common.{
  true, ◌<◌, ℕ, ◌+◌, ◌%◌, ◌≡◌, refl, ap, sym, ◌∙◌, ◌⊎◌, inl, inr, Option, some, false, ◌&&◌, ◌==◌,
  List, ok, err, spinn_front_end_exception, bufferable_region_too_small, length,
}
use spi_nnfront_end_common.Common.Sends.{Holds}
use spi_nnfront_end_common.Buffers.Region.{BufferedSendingRegion}
use spi_nnfront_end_common.Buffers.Pending.{queue, keys_at}
use spi_nnfront_end_common.Buffers.Manager.{
  Eieio, Initial, has_no_timestamps, send_initial_messages,
}
use spi_nnfront_end_common.Buffers.Keys.{keys_of}
use spi_nnfront_end_common.Buffers.Filled.{Loaded, NothingFits, send_initial_messages-Loaded}
use spi_nnfront_end_common.Injection.Source.{
  Source, Times, same_step, key_or_zero, fill_send_buffer,
}
use spi_nnfront_end_common.Injection.Rates.{count}
use spi_nnfront_end_common.Injection.Filled.{ranged}
use spi_nnfront_end_common.Injection.Covered.{
  planned, IsInstalled, fill_times-HoldsPlan, fill_send_buffer-ok,
}
use spi_nnfront_end_common.Injection.Fresh.{IsFresh, fill_times-IsFresh}
use spi_nnfront_end_common.Injection.Counted.{n_sent, n_queued, n_queued-Takes, n_queued-queue}

module _ (eieio : Eieio) where
  -- Each key is sent at a time step, or kept for it, as often as the plan `plan` has it there.
  abbrev pub Accounts : (ℕ → List ℕ) → Initial eieio → Type 0
  Accounts plan i =
      (t k : ℕ)
      → count k (plan t) ≡ n_sent t k (keys_of i.messages) + n_queued t k (queue i.keys_left)

  -- What the initial load makes of a region: it refuses an odd size, finds that there
  -- are timestamps but no message fits, or loads messages by the plan.
  abbrev pub LoadsPlan : (ℕ → List ℕ) → ℕ → ℕ → BufferedSendingRegion → Type 0
  LoadsPlan plan region size r =
      ((send_initial_messages eieio region size r ≡ err spinn_front_end_exception)
        × ((size % 2 == 0) ≡ false))
      ⊎ (((send_initial_messages eieio region size r ≡ err bufferable_region_too_small)
            × NothingFits eieio size r)
          ⊎ ((i : Initial eieio) × (send_initial_messages eieio region size r ≡ ok i)
              × Loaded eieio size r i
              × ((has_no_timestamps r ≡ true) ⊎ (0 < length i.messages))
              × Accounts plan i))

  send_initial_messages-LoadsPlan :
      (plan : ℕ → List ℕ) (region size : ℕ) (r : BufferedSendingRegion)
      → IsFresh r
      → ((t : ℕ) → keys_at r.buffer t ≡ plan t)
      → LoadsPlan plan region size r
  send_initial_messages-LoadsPlan plan region size r f holds =
      elim (send_initial_messages-Loaded eieio region size r f.well) [
        | inl refused ↦ inl refused
        | inr (inl too_small) ↦ inr (inl too_small)
        | inr (inr (i, ran, loaded, some_message)) ↦
            let accounts : Accounts plan i = λ t k.
              ap (count k) (sym (holds t))
              ∙ sym (n_queued-queue t k r f.well)
              ∙ n_queued-Takes t k (queue r) (keys_of i.messages) (queue i.keys_left)
                  loaded.takes in
            inr (inr (i, ran, loaded, some_message, accounts))
      ]

-- Where the source has a buffer and times of the expected length, there is a key for each atom, and
-- the run is not the one for which the buffer was filled last: filling returns a buffer, and the
-- buffer manager's initial load of it refuses an odd size, finds that there are timestamps but no
-- message fits, or writes messages, at least one where there are timestamps, that fit the region and go
-- by the queue's order; then each key is sent at a time step, or
-- kept in the buffer for it, as often as its times ask for it in the run, and no other is.
pub send_initial_messages-fill_send_buffer :
    (eieio : Eieio) (region size : ℕ) (get_keys : ℕ → ℕ → List ℕ) (first : ℕ) (end_step : Option ℕ)
    (s : Source) (ts : Times)
    → IsInstalled s ts
    → length (get_keys (key_or_zero s.virtual_key) s.n_keys) ≡ s.n_keys
    → (same_step s.first_machine_time_step (some first) && same_step s.run_until_timesteps end_step)
      ≡ false
    → (s' : Source) × (r : BufferedSendingRegion) × (fill_send_buffer get_keys first end_step s
        ≡ ok s')
      × (s'.send_buffer ≡ some r)
      × LoadsPlan eieio
          (λ t.
            ranged t first end_step (planned t (get_keys (key_or_zero s.virtual_key) s.n_keys) ts))
          region
          size
          r
send_initial_messages-fill_send_buffer eieio region size get_keys first end_step s ts i all_keys
      again =
    let base = key_or_zero s.virtual_key in
    let (r, ran, holds) =
      fill_times-HoldsPlan get_keys first end_step s.n_keys base all_keys ts i.expected in
    let fresh =
      subst (Holds IsFresh) ran (fill_times-IsFresh first end_step get_keys s.n_keys base ts) in
    (
      _,
      r,
      fill_send_buffer-ok get_keys first end_step s ts i r ran again,
      refl,
      send_initial_messages-LoadsPlan eieio _ region size r fresh holds,
    )
