-- ===== src/Buffers/Filled.antt =====
-- What the buffer manager writes before the run: messages that fit, with the queue's keys in order.
use mathlib.Core.Bool.{false≢true}
use mathlib.Core.Path.{subst}
use spi_nnfront_end_common.Common.{
  ==_iff, ltb→lt, Result-cases, ℕ, ◌+◌, ◌-◌, ◌/◌, ◌%◌, min, ◌≤◌, ◌<◌, ◌≡◌, refl, ◌⊎◌, inl, inr,
  true, false, not, ◌&&◌, none, [], ok, err, ltb, leb, ◌==◌, if◌then◌else◌, length, All, Bool-cases,
  bufferable_region_too_small, spinn_front_end_exception, arith,
}
use spi_nnfront_end_common.Buffers.Region.{BufferedSendingRegion, is_next_timestamp}
use spi_nnfront_end_common.Buffers.Pending.{queue, IsWell}
use spi_nnfront_end_common.Buffers.Takes.{Takes, nothing}
use spi_nnfront_end_common.Buffers.Manager.{
  Eieio, n_bytes_per_key, sdp_max_package_size, get_next_timestamp, create_message_to_send, Filling,
  goes_on, Initial, finish, send_initial_messages, has_no_timestamps, add_keys_to,
}
use spi_nnfront_end_common.Buffers.Keys.{keys_of}
use spi_nnfront_end_common.Buffers.Filling.{
  total_size, IsSendable, IsFilling, IsDone, GoesOnFrom, fill-IsFilling,
}

module _ (eieio : Eieio) where
  -- What is written: messages that fit, with the keys that are taken, and a stop request only
  -- where it fits and no key is left.
  pub record Loaded (size : ℕ) (r : BufferedSendingRegion) (i : Initial eieio) : Type 0 where
    pub room :
        total_size eieio i.messages + (if i.stop_request then eieio.stop_request_size else 0) ≤ size
    pub sendable : All (IsSendable eieio) i.messages
    pub takes : Takes (queue r) (keys_of i.messages) (queue i.keys_left)
    pub well : IsWell i.keys_left
    pub stopped : i.stop_request ≡ true → is_next_timestamp i.keys_left ≡ false
    pub no_more :
        (is_next_timestamp i.keys_left ≡ false)
        ⊎ ((bytes : ℕ) × (total_size eieio i.messages + bytes ≡ size)
            × ((bytes ≤ eieio.min_message_size)
                ⊎ (create_message_to_send eieio (min bytes sdp_max_package_size) i.keys_left
                    ≡ ok (none, i.keys_left))))

  finish-Loaded :
      (region size : ℕ) (r : BufferedSendingRegion) (st : Filling eieio)
      → IsFilling eieio size (queue r) st
      → IsDone eieio st
      → Loaded size r (finish eieio region st)
  unfolding finish
  finish-Loaded region size r st f done =
      elim (Bool-cases
        (not (is_next_timestamp st.keys_left) && leb eieio.stop_request_size st.bytes_to_go)) [
          | inl stops ↦ simp stops (record {
            room = omega (arith, f.sizes, enough stops);
            sendable = f.sendable;
            takes = f.takes;
            well = f.well;
            stopped = λ _. none_left stops;
            no_more = inl (none_left stops);
          })
          | inr more ↦ simp more (record {
            room = omega (arith, f.sizes);
            sendable = f.sendable;
            takes = f.takes;
            well = f.well;
            stopped = λ e. absurd (false≢true e);
            no_more = no_more done;
          })
        ]
    where
      no_more :
          IsDone eieio st
          → (is_next_timestamp st.keys_left ≡ false)
            ⊎ ((bytes : ℕ) × (total_size eieio st.all_data + bytes ≡ size)
                × ((bytes ≤ eieio.min_message_size)
                    ⊎ (create_message_to_send eieio (min bytes sdp_max_package_size) st.keys_left
                        ≡ ok (none, st.keys_left))))
      no_more (inr none_made) = inr (st.bytes_to_go, f.sizes, inr none_made)
      no_more (inl over) = elim (Bool-cases (is_next_timestamp st.keys_left)) [
        | inr nothing_left ↦ inl nothing_left
        | inl some_left ↦ inr (st.bytes_to_go, f.sizes, inl (ground arith))
      ]

      enough :
          (not (is_next_timestamp st.keys_left) && leb eieio.stop_request_size st.bytes_to_go)
            ≡ true
          → eieio.stop_request_size ≤ st.bytes_to_go
      enough e = ground arith

      none_left :
          (not (is_next_timestamp st.keys_left) && leb eieio.stop_request_size st.bytes_to_go)
            ≡ true
          → is_next_timestamp st.keys_left ≡ false
      none_left e = ground arith

  finish-some :
      (region : ℕ) (st : Filling eieio)
      → 0 < length st.all_data
      → 0 < length (finish eieio region st).messages
  unfolding finish
  finish-some region st h =
      elim (Bool-cases
        (not (is_next_timestamp st.keys_left) && leb eieio.stop_request_size st.bytes_to_go)) [
          | inl stops ↦ rw stops h
          | inr more ↦ rw more h
        ]

  -- There are timestamps, but no message fits: no key is left to send, or the region is no longer than
  -- the least message, or a package of it has no room for a message with one key.
  abbrev pub NothingFits : ℕ → BufferedSendingRegion → Type 0
  NothingFits size r =
      (has_no_timestamps r ≡ false)
      × ((is_next_timestamp r ≡ false)
          ⊎ ((size ≤ eieio.min_message_size)
              ⊎ (min size sdp_max_package_size < eieio.header_size + n_bytes_per_key)))

  create_message_to_send-none :
      (size : ℕ) (r r' : BufferedSendingRegion)
      → create_message_to_send eieio size r ≡ ok (none, r')
      → (is_next_timestamp r ≡ false) ⊎ (size < eieio.header_size + n_bytes_per_key)
  unfolding create_message_to_send
  create_message_to_send-none size r r' e = elim (Bool-cases (is_next_timestamp r)) [
    | inr over ↦ inl over
    | inl more ↦ elim (Bool-cases (ltb size (eieio.header_size + n_bytes_per_key))) [
      | inl small ↦ inr (ltb→lt _ _ small)
      | inr enough ↦
          elim (Result-cases (
            add_keys_to ((size - eieio.header_size) / n_bytes_per_key) (get_next_timestamp r) []
              r)) [
                | inl (filled, made) ↦ absurd (cc (rw (more, enough, made) at e))
                | inr (x, failed) ↦ absurd (cc (rw (more, enough, failed) at e))
              ]
    ]
  ]

  too_small-NothingFits :
      (size : ℕ) (r : BufferedSendingRegion) (st : Filling eieio)
      → has_no_timestamps r ≡ false
      → IsDone eieio st
      → GoesOnFrom eieio (record { all_data = []; bytes_to_go = size; keys_left = r }) st
      → length st.all_data ≡ 0
      → NothingFits size r
  too_small-NothingFits size r st has_some done (inr some_message) none_made = absurd (omega arith)
  too_small-NothingFits size r st has_some done (inl same) none_made = (
    has_some,
    elim (subst (IsDone eieio) same done) [
      | inl over ↦ elim (Bool-cases (is_next_timestamp r)) [
        | inr nothing_left ↦ inl nothing_left
        | inl some_left ↦ inr (inl (ground arith))
      ]
      | inr none_fits ↦ elim (create_message_to_send-none _ r r none_fits) [
        | inl nothing_left ↦ inl nothing_left
        | inr small ↦ inr (inr small)
      ]
    ],
  )

  no_timestamps :
      (size : ℕ) (r : BufferedSendingRegion)
      → has_no_timestamps r ≡ true
      → goes_on eieio (record { all_data = []; bytes_to_go = size; keys_left = r }) ≡ false
  unfolding is_next_timestamp
  no_timestamps size r empty = ground arith

  start-IsFilling :
      (size : ℕ) (r : BufferedSendingRegion)
      → IsWell r
      → IsFilling eieio size (queue r) (record { all_data = []; bytes_to_go = size; keys_left = r })
  start-IsFilling size r w = record {
    sizes = omega arith;
    sendable = tt;
    takes = nothing (queue r);
    well = w;
  }

  -- For a region whose keys are well kept, the initial load refuses an odd size, or finds that there
  -- are timestamps but no message fits, or writes messages, at least one where there are timestamps.
  -- Together with a stop request they fit the region, and each of them fits a package and has a key;
  -- their keys are the next ones of the queue, in its order, each with its timestamp, and what is left
  -- of the queue stays in the region. It asks to stop only where no key is left, and keys are left only
  -- where no further message fits.
  pub send_initial_messages-Loaded :
      (region size : ℕ) (r : BufferedSendingRegion)
      → IsWell r
      → ((send_initial_messages eieio region size r ≡ err spinn_front_end_exception)
          × ((size % 2 == 0) ≡ false))
        ⊎ (((send_initial_messages eieio region size r ≡ err bufferable_region_too_small)
              × NothingFits size r)
            ⊎ ((i : Initial eieio) × (send_initial_messages eieio region size r ≡ ok i)
                × Loaded size r i
                × ((has_no_timestamps r ≡ true) ⊎ (0 < length i.messages))))
  unfolding send_initial_messages
  send_initial_messages-Loaded region size r w = elim (Bool-cases (size % 2 == 0)) [
    | inr odd ↦ rw odd (inl (refl, refl))
    | inl even ↦ elim (Bool-cases (has_no_timestamps r)) [
      | inl empty ↦
          simp (even, empty)
            (inr (
              inr (
                _,
                refl,
                finish-Loaded region size r _ (start-IsFilling size r w)
                    (inl (no_timestamps size r empty)),
                inl refl,
              )))
      | inr some_keys ↦
          let (st, filled, f, done, from_start) =
            fill-IsFilling eieio size size (queue r) _ (start-IsFilling size r w) (omega arith) in
          elim (Bool-cases (length st.all_data == 0)) [
            | inl too_small ↦
                simp (even, some_keys, filled, too_small)
                  (inr (
                    inl (
                      refl,
                      (
                        refl,
                        (too_small-NothingFits size r st some_keys done from_start
                            ((==_iff _ _).0 too_small)).1,
                      ),
                    )))
            | inr enough ↦
                simp (even, some_keys, filled, enough)
                  (inr (
                    inr (
                      _,
                      refl,
                      finish-Loaded region size r st f done,
                      inr (finish-some region st (ground arith)),
                    )))
          ]
    ]
  ]
