-- ===== src/Gatherer/DataOut/Requested.antt =====
-- The requests for missing packets name each missing packet once.
use mathlib.Core.List.{flatten}
use native.Mathlib.Decide.{dec_lt}
use spi_nnfront_end_common.Common.{
  ℕ, zero, suc, ◌+◌, ◌-◌, ◌*◌, ◌^◌, ◌≤◌, ◌<◌, ◌≡◌, refl, ap, true, false, inl, inr, append-nil,
  List, [], ◌∷◌, ◌++◌, map, ok, le→ltb, lt→ltb, length, take, drop, slice-min, length-take,
  length-drop, take-append-drop, drop-drop, All, Result-cases, arith,
}
use spi_nnfront_end_common.Common.Words.{words_bytes, AllWords, pack_words-ok}
use spi_nnfront_end_common.Gatherer.{Placement, SdpMessage, ceildiv, ceildiv_bounds, ceildiv-total}
use spi_nnfront_end_common.Gatherer.DataOut.Requests.{
  command_start_missing_seq, command_missing_seq, make_data_out_message, n_packets_for,
  send_requests, request_missing,
}

-- The later requests: 66 numbers each, the last with what is left.
abbrev pub later_groups : ℕ → List ℕ → List (List ℕ)
later_groups zero l = []
later_groups (suc k) l = take 66 l ∷ later_groups k (drop 66 l)

abbrev pub first_request : Placement → ℕ → ℕ → List ℕ → SdpMessage
first_request p id n numbers =
    make_data_out_message p
      (words_bytes (command_start_missing_seq ∷ id ∷ n ∷ []) ++ words_bytes numbers)

abbrev pub later_request : Placement → ℕ → List ℕ → SdpMessage
later_request p id numbers =
    make_data_out_message p (words_bytes (command_missing_seq ∷ id ∷ []) ++ words_bytes numbers)

take-AllWords : (n : ℕ) (ws : List ℕ) → AllWords ws → AllWords (take n ws)
take-AllWords zero ws h = tt
take-AllWords (suc n) [] h = tt
take-AllWords (suc n) (w ∷ ws) h = (h.0, take-AllWords n ws h.1)

drop-AllWords : (n : ℕ) (ws : List ℕ) → AllWords ws → AllWords (drop n ws)
drop-AllWords zero ws h = h
drop-AllWords (suc n) [] h = tt
drop-AllWords (suc n) (w ∷ ws) h = drop-AllWords n ws h.1

-- Enough groups hold the whole list.
flatten-later_groups : (k : ℕ) (l : List ℕ) → length l ≤ 66 * k → flatten (later_groups k l) ≡ l
unfolding flatten
flatten-later_groups zero [] h = refl
flatten-later_groups zero (n ∷ l) h = absurd (omega arith)
flatten-later_groups (suc k) l h =
    rw (flatten-later_groups k (drop 66 l) (omega (arith, length-drop 66 l)))
      (take-append-drop 66 l)

-- Each group has a number and at most 66 of them.
later_groups-size :
    (k : ℕ) (l : List ℕ)
    → 66 * k < length l + 66
    → All (λ group. (0 < length group) × (length group ≤ 66)) (later_groups k l)
later_groups-size zero l h = tt
later_groups-size (suc k) l h = (
  (omega (arith, length-take 66 l), omega (arith, length-take 66 l)),
  later_groups-size k (drop 66 l) (omega (arith, length-drop 66 l)),
)

module _ (p : Placement) (id : ℕ) (missing : List ℕ) (wide : id < 2 ^ 32)
    (words : AllWords missing) where
  send_requests-later :
      (n rounds offset : ℕ)
      → 66 * rounds + offset < length missing + 66
      → send_requests p id missing n rounds false offset
        ≡ (map (later_request p id) (later_groups rounds (drop offset missing)), ok tt)
  unfolding send_requests
  send_requests-later n zero offset h = refl
  send_requests-later n (suc rounds) offset h = rw (
    le→ltb (length missing) offset (omega arith),
    slice-min 66 offset missing,
    pack_words-ok (command_missing_seq ∷ id ∷ []) (omega arith),
    pack_words-ok (take 66 (drop offset missing))
        (take-AllWords 66 (drop offset missing) (drop-AllWords offset missing words)),
    send_requests-later n rounds (offset + 66) (omega arith),
    drop-drop 66 offset missing,
  )

  -- The first request and what follows it, where `later` more packets are announced.
  send_requests-first :
      (later : ℕ)
      → suc later < 2 ^ 32
      → 66 * later + 65 < length missing + 66
      → send_requests p id missing (suc later) (suc later) true 0 ≡ (
        first_request p id (suc later) (take 65 missing)
            ∷ map (later_request p id) (later_groups later (drop 65 missing)),
        ok tt,
      )
  unfolding send_requests
  send_requests-first later narrow fits = rw (
    le→ltb (length missing) 0 (omega arith),
    slice-min 65 0 missing,
    pack_words-ok (command_start_missing_seq ∷ id ∷ suc later ∷ []) (omega arith),
    pack_words-ok (take 65 missing) (take-AllWords 65 missing words),
    send_requests-later (suc later) later 65 fits,
  )

length-later_groups : (k : ℕ) (l : List ℕ) → length (later_groups k l) ≡ k
length-later_groups zero l = refl
length-later_groups (suc k) l = ap suc (length-later_groups k (drop 66 l))

-- The numbers of the packets that are asked for, as the messages divide them.
pub record Requested (p : Placement) (id : ℕ) (missing : List ℕ) (sent : List SdpMessage)
    : Type 0 where
  pub first : List ℕ
  pub later : List (List ℕ)
  pub messages :
      sent ≡ first_request p id (suc (length later)) first ∷ map (later_request p id) later
  pub whole : first ++ flatten later ≡ missing
  pub first_fits : length first ≤ 65
  pub later_fit : All (λ group. (0 < length group) × (length group ≤ 66)) later

-- The packets announced are as few as hold the numbers, so that no later one is empty.
abbrev Announced : ℕ → Type 0
Announced n =
    (later : ℕ) × (n_packets_for n ≡ ok (suc later))
    × (n ≤ 66 * later + 65)
    × (66 * later + 65 < n + 66)

n_packets_for-Announced : (n : ℕ) → 0 < n → Announced n
unfolding n_packets_for
n_packets_for-Announced n some_missing = elim (dec_lt 65 n) [
  | no small ↦ rw (le→ltb 65 n (omega arith)) (0, refl, omega arith, omega arith)
  | yes big ↦ elim (Result-cases (ceildiv (n - 65) 66)) [
    | inl (q, e) ↦
        let bounds = ceildiv_bounds (n - 65) 66 q e in
        rw (lt→ltb 65 n big, e) (q, refl, omega arith, omega arith)
    | inr (x, e) ↦ absurd (ceildiv-total (n - 65) 65 x e)
  ]
]

-- The missing packets are asked for in messages of at most 68 words that name each number once, in
-- order, that come in the number the first of them announces, and none of the later ones is empty.
pub request_missing-Requested :
    (p : Placement) (id n : ℕ) (ns : List ℕ)
    → id < 2 ^ 32
    → AllWords (n ∷ ns)
    → length (n ∷ ns) < 2 ^ 32
    → Requested p id (n ∷ ns) (request_missing p id (n ∷ ns)).0
      × ((request_missing p id (n ∷ ns)).1 ≡ ok false)
unfolding request_missing
request_missing-Requested p id n ns wide words few =
    asked (n_packets_for-Announced (length (n ∷ ns)) (omega arith))
  where
    asked :
        Announced (length (n ∷ ns))
        → Requested p id (n ∷ ns) (request_missing p id (n ∷ ns)).0
          × ((request_missing p id (n ∷ ns)).1 ≡ ok false)
    asked (later_count, announced, enough, tight) =
        rw
          (
            announced,
            send_requests-first p id (n ∷ ns) wide words later_count (omega arith) (omega arith),
          )
          (
            record {
              first = take 65 (n ∷ ns);
              later = later_groups later_count (drop 65 (n ∷ ns));
              messages = rw (length-later_groups later_count (drop 65 (n ∷ ns))) (
                  ap (λ later. first_request p id (suc later_count) (take 65 (n ∷ ns)) ∷ later)
                    (append-nil _));
              whole =
                  rw
                    (flatten-later_groups later_count (drop 65 (n ∷ ns))
                      (omega (arith, length-drop 65 (n ∷ ns))))
                    (take-append-drop 65 (n ∷ ns));
              first_fits = omega (arith, length-take 65 (n ∷ ns));
              later_fit =
                  later_groups-size later_count (drop 65 (n ∷ ns))
                    (omega (arith, length-drop 65 (n ∷ ns)));
            },
            refl,
          )
