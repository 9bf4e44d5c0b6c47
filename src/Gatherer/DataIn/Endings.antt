-- ===== src/Gatherer/DataIn/Endings.antt =====
-- How a data-in exchange ends: by a confirmation, or after the allowed number of timeouts.
use spi_nnfront_end_common.Common.{
  ℕ, zero, suc, ◌+◌, ◌≤◌, ◌<◌, ◌≡◌, refl, ◌⊎◌, inl, inr, Bool, ◌||◌, Option, none, some, List, [],
  ◌∷◌, ◌++◌, Result, ok, err, ltb, Bool-cases, ◌==◌, replicate, arith, ltb→le,
}
use spi_nnfront_end_common.Common.Words.{Bytes, unpack_words}
use spi_nnfront_end_common.Common.Sends.{Send}
use spi_nnfront_end_common.Gatherer.{
  Gatherer, SdpMessage, Event, packet, timeout, timeout_retry_limit,
}
use spi_nnfront_end_common.Gatherer.DataIn.Packets.{
  command_receive_finished, command_receive_missing_seq_data,
}
use spi_nnfront_end_common.Gatherer.DataIn.Exchange.{
  Progress, Ending, waiting, finished, gave_up, raised, Step, proceed, accumulate, dispatch,
  on_packet, resend, on_timeout, on_event, exchange, onward,
}

-- A packet of this transfer that says that all data has arrived.
abbrev pub IsConfirmation : Gatherer → Event → Type 0
IsConfirmation g (packet bytes) =
    unpack_words 2 bytes ≡ ok (command_receive_finished ∷ g.transaction_id ∷ [])
IsConfirmation g timeout = ⊥

-- One of the events is such a packet.
abbrev pub Confirmed : Gatherer → List Event → Type 0
Confirmed g [] = ⊥
Confirmed g (e ∷ es) = IsConfirmation g e ⊎ Confirmed g es

-- The run ended by a confirmation.
abbrev pub IsFinished : Ending → Type 0
IsFinished (finished st) = Unit
IsFinished _ = ⊥

-- The run ended by an exception.
abbrev pub IsFailed : Ending → Type 0
IsFailed (gave_up st) = Unit
IsFailed (raised e st) = Unit
IsFailed _ = ⊥

onward_finished :
    {A B : Type 0} (s : Step) (next : Progress → Step)
    → (IsFinished s.1 → A)
    → ((st : Progress) → IsFinished (next st).1 → B)
    → IsFinished (onward s next).1
    → A ⊎ B
onward_finished (sent, waiting st) next f k h = inr (k st h)
onward_finished (sent, finished st) next f k h = inl (f tt)
onward_finished (sent, gave_up st) next f k h = absurd h
onward_finished (sent, raised e st) next f k h = absurd h

proceed-IsFailed :
    (s : Send SdpMessage (Unit {0})) (before after : Progress) (next : Progress → Step)
    → IsFailed (next after).1
    → IsFailed (onward (proceed s before after) next).1
proceed-IsFailed (sent, ok _) before after next h = h
proceed-IsFailed (sent, err e) before after next h = tt

proceed-not-IsFinished :
    (s : Send SdpMessage (Unit {0})) (before after : Progress)
    → ¬ (IsFinished (proceed s before after).1)
proceed-not-IsFinished (sent, ok _) before after h = h
proceed-not-IsFinished (sent, err e) before after h = h

module _ (g : Gatherer) (block : Bytes) (start : ℕ) where
  accumulate-not-IsFinished :
      (st : Progress) (seen : List ℕ) (found : Result (List ℕ × Bool × Bool))
      → ¬ (IsFinished (accumulate g block start st seen found).1)
  accumulate-not-IsFinished st seen (err e) = λ h. h
  accumulate-not-IsFinished st seen (ok (s, seen_last, seen_all)) =
      elim (Bool-cases (seen_all || seen_last)) [
        | inl ready ↦ rw ready (proceed-not-IsFinished _ _ _)
        | inr more ↦ rw more (λ h. h)
      ]

  dispatch_finished :
      (st : Progress) (bytes : Bytes) (words : Result (List ℕ))
      → IsFinished (dispatch g block start st bytes words).1
      → words ≡ ok (command_receive_finished ∷ g.transaction_id ∷ [])
  dispatch_finished st bytes (ok (cmd ∷ id ∷ [])) = elim (Bool-cases (g.transaction_id == id)) [
    | inr stale ↦ rw stale (λ h. absurd h)
    | inl ours ↦ elim (Bool-cases (cmd == command_receive_finished)) [
      | inl done ↦ λ _. ground arith
      | inr open_still ↦ elim (Bool-cases (cmd == command_receive_missing_seq_data)) [
        | inl report ↦
            rw (ours, open_still, report) (λ h. absurd (accumulate-not-IsFinished st _ _ h))
        | inr unknown ↦ rw (ours, open_still, unknown) (λ h. absurd h)
      ]
    ]
  ]
  dispatch_finished st bytes (ok []) = λ h. absurd h
  dispatch_finished st bytes (ok (a ∷ [])) = λ h. absurd h
  dispatch_finished st bytes (ok (a ∷ b ∷ c ∷ more)) = λ h. absurd h
  dispatch_finished st bytes (err e) = λ h. absurd h

  resend-not-IsFinished :
      (st : Progress) (missing : Option (List ℕ))
      → ¬ (IsFinished (resend g block start st missing).1)
  resend-not-IsFinished st none = proceed-not-IsFinished _ _ _
  resend-not-IsFinished st (some s) = proceed-not-IsFinished _ _ _

  resend-IsFailed :
      (st : Progress) (missing : Option (List ℕ)) (next : Progress → Step)
      → ((st' : Progress) → st'.time_out_count ≡ st.time_out_count → IsFailed (next st').1)
      → IsFailed (onward (resend g block start st missing) next).1
  resend-IsFailed st none next h = proceed-IsFailed _ _ _ next (h _ refl)
  resend-IsFailed st (some s) next h = proceed-IsFailed _ _ _ next (h _ refl)

  on_event_finished :
      (st : Progress) (e : Event) → IsFinished (on_event g block start st e).1 → IsConfirmation g e
  unfolding on_event on_packet on_timeout
  on_event_finished st (packet bytes) = dispatch_finished _ bytes (unpack_words 2 bytes)
  on_event_finished st timeout =
      elim (Bool-cases (ltb timeout_retry_limit (st.time_out_count + 1))) [
        | inl over ↦ rw over (λ h. h)
        | inr again ↦ rw again (resend-not-IsFinished _ st.missing)
      ]

  -- The host takes the transfer for done only if the board has confirmed it, in a packet with the
  -- id of this transfer.
  pub finished-Confirmed :
      (st : Progress) (events : List Event)
      → IsFinished (exchange g block start st events).1
      → Confirmed g events
  unfolding exchange
  finished-Confirmed st [] h = absurd h
  finished-Confirmed st (e ∷ es) h =
      onward_finished (on_event g block start st e) _ (on_event_finished st e)
        (λ st'. finished-Confirmed st' es) h

  -- From any state, as many timeouts in a row as are left of the 101 end the run by an exception,
  -- whatever follows them.
  pub timeouts-IsFailed :
      (k : ℕ) (st : Progress) (events : List Event)
      → timeout_retry_limit < st.time_out_count + k
      → st.time_out_count ≤ timeout_retry_limit
      → IsFailed (exchange g block start st (replicate k timeout ++ events)).1
  unfolding exchange on_event on_timeout
  timeouts-IsFailed zero st events h below = absurd (omega arith)
  timeouts-IsFailed (suc k) st events h below =
      elim (Bool-cases (ltb timeout_retry_limit (st.time_out_count + 1))) [
        | inl over ↦ rw over tt
        | inr again ↦ rw again (
            resend-IsFailed (record st { time_out_count = st.time_out_count + 1 }) st.missing _
              λ st' same.
                timeouts-IsFailed k st' events (omega arith)
                  (omega (arith, ltb→le timeout_retry_limit (st.time_out_count + 1) again)))
      ]
