-- ===== src/Common/Words.antt =====
-- Python's `struct` at the formats "<I", "<II", …: little-endian 32-bit words as lists of bytes.
use Prim.Native.Nat.{ℕ, zero, suc, ◌+◌, ◌*◌, ◌/◌, ◌%◌, ◌^◌, ◌<◌}
use mathlib.Core.Path.{◌≡◌, refl}
use mathlib.Core.List.{List, [], ◌∷◌, ◌++◌}
use native.Mathlib.Omega.{arith}
use spi_nnfront_end_common.Common.Tests.{leb}
use spi_nnfront_end_common.Common.Lists.{length, drop}
use spi_nnfront_end_common.Common.Results.{Result, ok, err, struct_error, ◌>>=◌, ◌>>◌, raise_if}

abbrev pub Bytes : Type 0
Bytes = List ℕ

abbrev pub word_bytes : ℕ → Bytes
word_bytes w = w % 256 ∷ (w / 2 ^ 8) % 256 ∷ (w / 2 ^ 16) % 256 ∷ (w / 2 ^ 24) % 256 ∷ []

-- `struct.pack`: a number of more than 32 bits is an error.
unfoldable pub pack_words : List ℕ → Result Bytes
pack_words [] = ok []
pack_words (w ∷ ws) = do
  raise_if (leb (2 ^ 32) w) struct_error
  rest ← pack_words ws
  ok (word_bytes w ++ rest)

-- `struct.unpack_from`: a buffer that is too short is an error.
unfoldable pub unpack_words : ℕ → Bytes → Result (List ℕ)
unpack_words zero bytes = ok []
unpack_words (suc n) (a ∷ b ∷ c ∷ d ∷ rest) = do
  ws ← unpack_words n rest
  ok ((a + 2 ^ 8 * b + 2 ^ 16 * c + 2 ^ 24 * d) ∷ ws)
unpack_words (suc n) _ = err struct_error

-- `word, = _ONE_WORD.unpack_from(data, offset)`
unfoldable pub unpack_word : Bytes → ℕ → Result ℕ
unpack_word bytes offset = first (drop offset bytes)
  where
    first : Bytes → Result ℕ
    first (a ∷ b ∷ c ∷ d ∷ rest) = ok (a + 2 ^ 8 * b + 2 ^ 16 * c + 2 ^ 24 * d)
    first _ = err struct_error

abbrev pub AllWords : List ℕ → Type 0
AllWords [] = Unit
AllWords (w ∷ ws) = (w < 2 ^ 32) × AllWords ws

-- The bytes that `pack_words` yields where it does not raise.
abbrev pub words_bytes : List ℕ → Bytes
words_bytes [] = []
words_bytes (w ∷ ws) = word_bytes w ++ words_bytes ws

pub pack_words-ok : (ws : List ℕ) → AllWords ws → pack_words ws ≡ ok (words_bytes ws)
unfolding pack_words
pack_words-ok [] h = refl
pack_words-ok (w ∷ ws) h = ground (arith, pack_words-ok ws h.1)

pub length-words_bytes : (ws : List ℕ) → length (words_bytes ws) ≡ 4 * length ws
length-words_bytes [] = refl
length-words_bytes (w ∷ ws) = omega (arith, length-words_bytes ws)

pub unpack_words-pack :
    (ws : List ℕ) (rest : Bytes)
    → AllWords ws
    → unpack_words (length ws) (words_bytes ws ++ rest) ≡ ok ws
unfolding unpack_words
unpack_words-pack [] rest h = refl
unpack_words-pack (w ∷ ws) rest h = ground (arith, unpack_words-pack ws rest h.1)

-- The first and the second word of a packed message.
pub unpack_word-first :
    (w : ℕ) (rest : Bytes) → w < 2 ^ 32 → unpack_word (word_bytes w ++ rest) 0 ≡ ok w
unfolding unpack_word
unpack_word-first w rest h = ground arith

pub unpack_word_second :
    (v w : ℕ) (rest : Bytes)
    → w < 2 ^ 32
    → unpack_word (word_bytes v ++ word_bytes w ++ rest) 4 ≡ ok w
unfolding unpack_word
unpack_word_second v w rest h = ground arith
