-- ===== src/Buffers/Filling.antt =====
-- The loop of the initial load: messages that fit, with the queue's keys in order.
use mathlib.Core.Path.{subst}
use spi_nnfront_end_common.Common.{
  ap, length-append, ℕ, zero, suc, ◌+◌, ◌-◌, ◌/◌, ◌≤◌, ◌<◌, ◌≡◌, refl, ◌⊎◌, inl, inr, false, none,
  some, List, [], ◌∷◌, ◌++◌, ok, ltb, length, All, All-append, ltb→le, Bool-cases, arith,
}
use spi_nnfront_end_common.Buffers.Region.{BufferedSendingRegion, is_next_timestamp}
use spi_nnfront_end_common.Buffers.Pending.{queue, IsWell}
use spi_nnfront_end_common.Buffers.Queue.{Queue}
use spi_nnfront_end_common.Buffers.Takes.{Takes, Takes-append, add_keys_to-Added}
use spi_nnfront_end_common.Buffers.Manager.{
  Eieio, DataMessage, n_bytes_per_key, sdp_max_package_size, get_next_timestamp, size_of,
  create_message_to_send, Filling, put_message, space_available, goes_on, fill,
}
use spi_nnfront_end_common.Buffers.Keys.{stamped, has_key, keys_of, keys_of-append, first_pending}

module _ (eieio : Eieio) where
  -- What a message takes from the region.
  pub record Made (size : ℕ) (r : BufferedSendingRegion) : Type 0 where
    pub message : DataMessage
    pub after : BufferedSendingRegion
    pub made : create_message_to_send eieio size r ≡ ok (some message, after)
    pub takes : Takes (queue r) (stamped message) (queue after)
    pub fits : size_of eieio message ≤ size
    pub some_key : 0 < length message.keys
    pub well : IsWell after

  create_message_to_send-Made :
      (size : ℕ) (r : BufferedSendingRegion)
      → IsWell r
      → (create_message_to_send eieio size r ≡ ok (none, r)) ⊎ Made size r
  unfolding create_message_to_send
  create_message_to_send-Made size r w = elim (Bool-cases (is_next_timestamp r)) [
    | inr over ↦ rw over (inl refl)
    | inl next ↦ elim (Bool-cases (ltb size (eieio.header_size + n_bytes_per_key))) [
      | inl small ↦ rw (next, small) (inl refl)
      | inr roomy ↦
          let (low, has_key) = first_pending r w next in
          let a =
            add_keys_to-Added (get_next_timestamp r) ((size - eieio.header_size) / n_bytes_per_key)
              [] r w low in
          let room = ltb→le size (eieio.header_size + n_bytes_per_key) roomy in
          inr (record {
            message = record { timestamp = get_next_timestamp r; keys = a.more };
            after = a.after;
            made = rw (next, roomy, a.added) refl;
            takes = a.takes;
            fits = omega (arith, a.few);
            some_key = a.some_key has_key (omega arith);
            well = a.well;
          })
    ]
  ]

  -- The bytes of the messages.
  abbrev pub total_size : List DataMessage → ℕ
  total_size [] = 0
  total_size (m ∷ ms) = size_of eieio m + total_size ms

  total_size-append :
      (l l' : List DataMessage) → total_size (l ++ l') ≡ total_size l + total_size l'
  total_size-append [] l' = omega arith
  total_size-append (m ∷ l) l' = omega (arith, total_size-append l l')

  -- A message fits a package and has a key.
  abbrev pub IsSendable : DataMessage → Type 0
  IsSendable m = (size_of eieio m ≤ sdp_max_package_size) × (0 < length m.keys)

  -- What the loop keeps: the messages and the bytes left make up the region, and the messages hold
  -- the keys that were taken from the queue.
  pub record IsFilling (size : ℕ) (q : Queue) (st : Filling eieio) : Type 0 where
    pub sizes : total_size st.all_data + st.bytes_to_go ≡ size
    pub sendable : All IsSendable st.all_data
    pub takes : Takes q (keys_of st.all_data) (queue st.keys_left)
    pub well : IsWell st.keys_left

  put_message-IsFilling :
      (size : ℕ) (q : Queue) (st : Filling eieio)
      → IsFilling size q st
      → (m : Made (space_available eieio st) st.keys_left)
      → IsFilling size q (put_message eieio st m.message m.after)
  put_message-IsFilling size q st f m = record {
    sizes = omega (arith, f.sizes, m.fits, total_size-append st.all_data (m.message ∷ []));
    sendable =
        All-append IsSendable st.all_data (m.message ∷ []) f.sendable
          ((omega (arith, m.fits), m.some_key), tt);
    takes =
        subst (λ l. Takes q l (queue m.after)) (keys_of-append st.all_data m.message)
          (Takes-append q (queue st.keys_left) (queue m.after) (keys_of st.all_data)
            (stamped m.message) f.takes m.takes);
    well = m.well;
  }

  -- The loop is over: its test fails, or no message can be made.
  abbrev pub IsDone : Filling eieio → Type 0
  IsDone st =
      (goes_on eieio st ≡ false)
      ⊎ (create_message_to_send eieio (space_available eieio st) st.keys_left
          ≡ ok (none, st.keys_left))

  -- Without a message nothing has changed.
  abbrev pub GoesOnFrom : Filling eieio → Filling eieio → Type 0
  GoesOnFrom st st' = (st' ≡ st) ⊎ (0 < length st'.all_data)

  made_one :
      (st st' : Filling eieio) (m : DataMessage) (r : BufferedSendingRegion)
      → GoesOnFrom (put_message eieio st m r) st'
      → 0 < length st'.all_data
  made_one st st' m r (inl same) =
      let grown : length st'.all_data ≡ length (st.all_data ++ m ∷ []) =
        ap (λ (x : Filling eieio). length x.all_data) same in
      omega (arith, grown, length-append st.all_data (m ∷ []))
  made_one st st' m r (inr some_message) = some_message

  -- As many rounds as there are bytes are enough.
  pub fill-IsFilling :
      (fuel size : ℕ) (q : Queue) (st : Filling eieio)
      → IsFilling size q st
      → st.bytes_to_go ≤ fuel
      → (st' : Filling eieio) × (fill eieio fuel st ≡ ok st')
        × IsFilling size q st'
        × IsDone st'
        × GoesOnFrom st st'
  unfolding fill
  fill-IsFilling zero size q st f bytes = (st, refl, f, inl (ground arith), inl refl)
  fill-IsFilling (suc fuel) size q st f bytes = elim (Bool-cases (goes_on eieio st)) [
    | inr over ↦ (st, rw (over, fill) refl, f, inl over, inl refl)
    | inl more ↦ elim (create_message_to_send-Made (space_available eieio st) st.keys_left f.well) [
      | inl none_made ↦ (st, rw (more, fill, none_made) refl, f, inr none_made, inl refl)
      | inr m ↦
          let (st', filled, f', done, from_made) =
            fill-IsFilling fuel size q (put_message eieio st m.message m.after)
              (put_message-IsFilling size q st f m) (omega (arith, m.fits, m.some_key)) in
          (
            st',
            rw (more, fill, m.made) filled,
            f',
            done,
            inr (made_one st st' m.message m.after from_made),
          )
    ]
  ]
