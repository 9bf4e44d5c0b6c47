-- ===== src/Gatherer/DataOut/Pieces.antt =====
-- The packets of a block of memory, and what writing one does to the output buffer.
use native.Mathlib.Decide.{dec_lt}
use spi_nnfront_end_common.Common.{
  ℕ, ◌+◌, ◌-◌, ◌*◌, ◌/◌, ◌≤◌, ◌<◌, ◌≡◌, refl, ap, ◌∙◌, inl, inr, Bool, ◌&&◌, some, Result, ok, err,
  ◌==◌, lt→ltb, le→ltb, value_error, Bool-cases, length, slice, get_elem?, if◌then◌else◌, take_all,
  arith,
}
use spi_nnfront_end_common.Common.Words.{Bytes}
use spi_nnfront_end_common.Gatherer.{Gatherer}
use spi_nnfront_end_common.Gatherer.DataOut.Output.{write_into_view, write_payload, offset_of}
use spi_nnfront_end_common.Gatherer.DataOut.Spliced.{
  piece, core_packet, length-piece, spliced, length-spliced, beyond_piece, in_packet,
  get_elem?-spliced,
}

-- The bytes of packet `n` of a block.
-- The output holds the block's bytes where packet `n` belongs, and what it held elsewhere.
abbrev pub Written : Bytes → Bytes → Bytes → ℕ → Type 0
Written block out out' n =
    (length out' ≡ length out)
    × ((i : ℕ) → get_elem? out' i ≡ (if i / 264 == n then get_elem? block i else get_elem? out i))

-- The first eight bytes of a packet are its words.
packet_payload :
    (block : Bytes) (id n : ℕ) (ends : Bool)
    → slice (core_packet block id n ends) 8 (length (core_packet block id n ends)) ≡ piece block n
packet_payload block id n ends = take_all _ (piece block n) (omega arith)

-- A packet of the block that has no payload leaves the output as it should be.
nothing_to_write :
    (block out : Bytes) (n : ℕ)
    → length out ≡ length block
    → length (piece block n) ≡ 0
    → Written block out out n
nothing_to_write block out n e empty = (
  refl,
  λ i. in_packet n i (λ same. beyond_piece block out n i e same (omega arith)) (λ other. refl),
)

module _ (block out : Bytes) (id n : ℕ) (ends : Bool) where
  abbrev write_core_packet : Result Bytes
  write_core_packet =
      write_into_view (some out) (offset_of n)
        (offset_of n + length (core_packet block id n ends) - 8) (core_packet block id n ends) 8
        (length (core_packet block id n ends))

  write_fits :
      264 * n + length (piece block n) ≤ length out → write_core_packet ≡ ok (spliced block out n)
  unfolding write_into_view offset_of
  write_fits fits =
      let at : n * 66 * 4 ≡ 264 * n = omega arith in
      let to : n * 66 * 4 + length (core_packet block id n ends) - 8
          ≡ 264 * n + length (piece block n) =
        omega arith in
      rw
        (
          to,
          at,
          le→ltb (length out) (264 * n + length (piece block n)) fits,
          packet_payload block id n ends,
        )
        (ground arith)

  write_overflows :
      length out < 264 * n + length (piece block n) → write_core_packet ≡ err value_error
  unfolding write_into_view offset_of
  write_overflows over =
      rw (lt→ltb (length out) (n * 66 * 4 + length (core_packet block id n ends) - 8) (omega arith))

pub ok_eq : {A : Type 0} {a b : A} → ok a ≡ ok b → b ≡ a
ok_eq h = cc

-- Writing a packet of the block puts its bytes in place, or raises.
pub write_payload-Written :
    (g g' : Gatherer) (block out : Bytes) (id n : ℕ) (ends : Bool)
    → g.output ≡ some out
    → length out ≡ length block
    → write_payload g (core_packet block id n ends) n ends ≡ ok g'
    → (out' : Bytes) × (g' ≡ record g { output = some out' }) × Written block out out' n
unfolding write_payload
write_payload-Written g g' block out id n ends held e =
    elim (Bool-cases (ends && (length (core_packet block id n ends) == 8))) [
      | inl bare ↦ rw bare λ done. (
        out,
        ok_eq done ∙ ap (λ o. record g { output = o }) held,
        nothing_to_write block out n e (ground arith),
      )
      | inr full ↦ elim (dec_lt (length out) (264 * n + length (piece block n))) [
        | yes over ↦ rw (full, held, write_overflows block out id n ends over) (λ done. cc)
        | no fits ↦
            rw (full, held, write_fits block out id n ends (omega arith))
              λ done. (
                spliced block out n,
                ok_eq done,
                (
                  length-spliced block out n e (omega arith),
                  λ i. get_elem?-spliced block out n i e (omega arith),
                ),
              )
      ]
    ]

-- A packet that belongs to the block is written.
pub write_payload-accepted :
    (g : Gatherer) (block out : Bytes) (id n : ℕ) (ends : Bool)
    → g.output ≡ some out
    → length out ≡ length block
    → 264 * n ≤ length block
    → (out' : Bytes) × (write_payload g (core_packet block id n ends) n ends
        ≡ ok (record g { output = some out' }))
      × Written block out out' n
unfolding write_payload
write_payload-accepted g block out id n ends held e inside =
    let fits : 264 * n + length (piece block n) ≤ length out =
      omega (arith, length-piece block n) in
    elim (Bool-cases (ends && (length (core_packet block id n ends) == 8))) [
      | inl bare ↦ (
        out,
        rw bare (ap (λ o. ok (record g { output = o })) held),
        nothing_to_write block out n e (ground arith),
      )
      | inr full ↦ (
        spliced block out n,
        rw (full, held, write_fits block out id n ends fits),
        (length-spliced block out n e fits, λ i. get_elem?-spliced block out n i e fits),
      )
    ]
