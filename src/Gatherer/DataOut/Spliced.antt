-- ===== src/Gatherer/DataOut/Spliced.antt =====
-- The output with the piece of a block that one packet brings.
use mathlib.Core.Bool.{false≢true}
use native.Mathlib.Decide.{dec_lt}
use spi_nnfront_end_common.Common.{
  lengths, ℕ, ◌+◌, ◌-◌, ◌*◌, ◌/◌, ◌^◌, ◌≤◌, ◌<◌, min, ◌≡◌, sym, ap, ◌∙◌, inl, inr, Bool, true,
  false, Option, [], ◌∷◌, ◌++◌, ◌==◌, ==_iff, ◌≢◌, Bool-cases, length, take, drop, get_elem?,
  if◌then◌else◌, length-append, length-take, length-drop, get_elem?-none, get_elem?-append_left,
  get_elem?-append_right, get_elem?-take, get_elem?-drop, arith,
}
use spi_nnfront_end_common.Common.Words.{Bytes, words_bytes}

abbrev pub piece : Bytes → ℕ → Bytes
piece block n = take 264 (drop (264 * n) block)

-- The first word of a packet: its number, and the top bit where it ends the stream.
abbrev pub numbered : ℕ → Bool → ℕ
numbered n false = n
numbered n true = 2 ^ 31 + n

-- A packet with the bytes of a block that belong to its number, none if the number is past the block.
abbrev pub core_packet : Bytes → ℕ → ℕ → Bool → Bytes
core_packet block transaction_id n ends =
    words_bytes (numbered n ends ∷ transaction_id ∷ []) ++ piece block n

-- A packet that only ends a stream.
abbrev pub bare_end : ℕ → ℕ → Bytes
bare_end transaction_id n = words_bytes (numbered n true ∷ transaction_id ∷ [])

pub length-piece :
    (block : Bytes) (n : ℕ) → length (piece block n) ≡ min 264 (length block - 264 * n)
length-piece block n =
    length-take 264 (drop (264 * n) block) ∙ ap (min 264) (length-drop (264 * n) block)

get_elem?-piece :
    (block : Bytes) (n i : ℕ)
    → i / 264 ≡ n
    → get_elem? (piece block n) (i - 264 * n) ≡ get_elem? block i
get_elem?-piece block n i e =
    get_elem?-take 264 (drop (264 * n) block) (i - 264 * n) (omega arith)
    ∙ get_elem?-drop (264 * n) block (i - 264 * n)
    ∙ ap (get_elem? block) (omega arith)

-- An output of the block's length with packet `n` in place.
abbrev pub spliced : Bytes → Bytes → ℕ → Bytes
spliced block out n =
    take (264 * n) out ++ piece block n ++ drop (264 * n + length (piece block n)) out

pub length-spliced :
    (block out : Bytes) (n : ℕ)
    → length out ≡ length block
    → 264 * n + length (piece block n) ≤ length out
    → length (spliced block out n) ≡ length out
length-spliced block out n e fits = grind lengths

module _ (block out : Bytes) (n i : ℕ) where
  spliced-before :
      i < 264 * n → 264 * n ≤ length out → get_elem? (spliced block out n) i ≡ get_elem? out i
  spliced-before before fits =
      get_elem?-append_left (take (264 * n) out ++ piece block n) _ i (
        omega
          (arith, length-append (take (264 * n) out) (piece block n), length-take (264 * n) out))
      ∙ get_elem?-append_left (take (264 * n) out) (piece block n) i (grind lengths)
      ∙ get_elem?-take (264 * n) out i before

  spliced-inside :
      264 * n ≤ i
      → i < 264 * n + length (piece block n)
      → 264 * n ≤ length out
      → get_elem? (spliced block out n) i ≡ get_elem? block i
  spliced-inside from_n inside fits =
      get_elem?-append_left (take (264 * n) out ++ piece block n) _ i (
        omega
          (arith, length-append (take (264 * n) out) (piece block n), length-take (264 * n) out))
      ∙ get_elem?-append_right (take (264 * n) out) (piece block n) i (grind lengths)
      ∙ ap (get_elem? (piece block n)) {y = i - 264 * n} (grind lengths)
      ∙ get_elem?-piece block n i (omega (arith, length-piece block n))

  spliced-after :
      264 * n + length (piece block n) ≤ i
      → 264 * n + length (piece block n) ≤ length out
      → get_elem? (spliced block out n) i ≡ get_elem? out i
  spliced-after after fits =
      let front : length (take (264 * n) out ++ piece block n) ≡ 264 * n + length (piece block n) =
        omega
          (arith, length-append (take (264 * n) out) (piece block n), length-take (264 * n) out) in
      get_elem?-append_right (take (264 * n) out ++ piece block n) _ i (omega (arith, front))
      ∙ get_elem?-drop (264 * n + length (piece block n)) out
          (i - length (take (264 * n) out ++ piece block n))
      ∙ ap (get_elem? out) (omega (arith, front))

  -- Beyond the payload of packet `n` there is no byte of it.
  pub beyond_piece :
      length out ≡ length block
      → i / 264 ≡ n
      → 264 * n + length (piece block n) ≤ i
      → get_elem? out i ≡ get_elem? block i
  beyond_piece e same after =
      get_elem?-none out i (omega (arith, length-piece block n))
      ∙ sym (get_elem?-none block i (omega (arith, length-piece block n)))

-- `ite` on the number of the packet that a byte belongs to
pub in_packet :
    (n i : ℕ) {a b c : Option ℕ}
    → (i / 264 ≡ n → a ≡ b)
    → (i / 264 ≢ n → a ≡ c)
    → a ≡ (if i / 264 == n then b else c)
in_packet n i same other = elim (Bool-cases (i / 264 == n)) [
  | inl e ↦ rw e (same ((==_iff _ n).0 e))
  | inr e ↦ rw e (other (λ h. false≢true (sym e ∙ (==_iff _ n).1 h)))
]

pub get_elem?-spliced :
    (block out : Bytes) (n i : ℕ)
    → length out ≡ length block
    → 264 * n + length (piece block n) ≤ length out
    → get_elem? (spliced block out n) i
      ≡ (if i / 264 == n then get_elem? block i else get_elem? out i)
get_elem?-spliced block out n i e fits = elim (dec_lt i (264 * n)) [
  | yes before ↦
      in_packet n i (λ same. absurd (omega arith))
        (λ other. spliced-before block out n i before (omega arith))
  | no from_n ↦ elim (dec_lt i (264 * n + length (piece block n))) [
    | yes inside ↦
        in_packet n i (λ same. spliced-inside block out n i (omega arith) inside (omega arith))
          (λ other. absurd (other (omega (arith, length-piece block n))))
    | no after ↦
        in_packet n i
          (λ same.
            spliced-after block out n i (omega arith) fits
            ∙ beyond_piece block out n i e same (omega arith))
          (λ other. spliced-after block out n i (omega arith) fits)
  ]
]
