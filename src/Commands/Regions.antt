-- ===== src/Commands/Regions.antt =====
-- What writing commands adds to the block that is being written, and how it is read.
use spi_nnfront_end_common.Common.{
  ℕ, ◌+◌, ◌*◌, ◌%◌, ◌^◌, ◌<◌, ◌≡◌, refl, inl, inr, Option, none, some, List, [], ◌∷◌, ◌++◌,
  append_assoc, append-nil, ok, ◌==◌, Bool-cases, length, All, arith,
}
use spi_nnfront_end_common.Common.Words.{
  Bytes, AllWords, word_bytes, words_bytes, length-words_bytes,
}
use spi_nnfront_end_common.Dsg.Generator.{Generator, write_value}
use spi_nnfront_end_common.Commands.Command.{MultiCastCommand, or_zero, has_payload}
use spi_nnfront_end_common.Commands.Spec.{
  write_uint32, write_command, write_each, write_basic_commands, write_each_timed,
  write_timed_commands,
}

-- The words of a command, as the core reads them: key, has_payload, payload, repeats, delay.
abbrev pub command_words : MultiCastCommand → List ℕ
command_words c =
    c.key ∷ has_payload c.payload ∷ or_zero c.payload ∷ c.repeat ∷ c.delay_between_repeats ∷ []

abbrev pub each_words : List MultiCastCommand → List ℕ
each_words [] = []
each_words (c ∷ cs) = command_words c ++ each_words cs

abbrev pub basic_words : List MultiCastCommand → List ℕ
basic_words cs = length cs ∷ each_words cs

abbrev pub each_timed_words : List MultiCastCommand → List ℕ
each_timed_words [] = []
each_timed_words (c ∷ cs) = or_zero c.time ∷ command_words c ++ each_timed_words cs

abbrev pub timed_words : List MultiCastCommand → List ℕ
timed_words cs = length cs ∷ each_timed_words cs

-- Values that fit in words.
abbrev pub IsCommand : MultiCastCommand → Type 0
IsCommand c =
    (c.key < 2 ^ 32)
    × (or_zero c.payload < 2 ^ 32)
    × (or_zero c.time < 2 ^ 32)
    × (c.repeat < 2 ^ 32)
    × (c.delay_between_repeats < 2 ^ 32)

has_payload-word : (p : Option ℕ) → has_payload p < 2 ^ 32
has_payload-word none = omega arith
has_payload-word (some n) = omega arith

pub each_words-AllWords : (cs : List MultiCastCommand) → All IsCommand cs → AllWords (each_words cs)
each_words-AllWords [] h = tt
each_words-AllWords (c ∷ cs) h =
    (h.0.0, (has_payload-word c.payload, (h.0.1, (h.0.3, (h.0.4, each_words-AllWords cs h.1)))))

pub each_timed_words-AllWords :
    (cs : List MultiCastCommand) → All IsCommand cs → AllWords (each_timed_words cs)
each_timed_words-AllWords [] h = tt
each_timed_words-AllWords (c ∷ cs) h = (
  h.0.2,
  (
    h.0.0,
    (has_payload-word c.payload, (h.0.1, (h.0.3, (h.0.4, each_timed_words-AllWords cs h.1)))),
  ),
)

-- The generator with more content.
abbrev pub written : Generator → Bytes → Generator
written g content = record g { content = some content }

pub write_uint32_lem :
    (w : ℕ) (g : Generator) (content : Bytes)
    → w < 2 ^ 32
    → write_uint32 w (written g content) ≡ ok (written g (content ++ word_bytes w))
unfolding write_uint32 write_value
write_uint32_lem w g content h = elim (Bool-cases (length content % 4 == 0)) [
  | inl e ↦ ground arith
  | inr e ↦ ground arith
]

write_command_lem :
    (c : MultiCastCommand) (g : Generator) (content : Bytes)
    → IsCommand c
    → write_command c (written g content)
      ≡ ok (written g (content ++ words_bytes (command_words c)))
unfolding write_command
write_command_lem c g content h =
    simp (write_uint32_lem, h.0, h.1, h.3, h.4, has_payload-word, append_assoc)

pub words_bytes-append :
    (ws vs : List ℕ) → words_bytes (ws ++ vs) ≡ words_bytes ws ++ words_bytes vs
words_bytes-append [] vs = refl
words_bytes-append (w ∷ ws) vs = simp (words_bytes-append ws vs, append_assoc)

write_each_lem :
    (cs : List MultiCastCommand) (g : Generator) (content : Bytes)
    → All IsCommand cs
    → write_each cs (written g content) ≡ ok (written g (content ++ words_bytes (each_words cs)))
unfolding write_each
write_each_lem [] g content h = simp append-nil
write_each_lem (c ∷ cs) g content h =
    simp (write_command_lem c g content h.0, write_each_lem cs g _ h.1, append_assoc)

write_each_timed_lem :
    (cs : List MultiCastCommand) (g : Generator) (content : Bytes)
    → All IsCommand cs
    → write_each_timed cs (written g content)
      ≡ ok (written g (content ++ words_bytes (each_timed_words cs)))
unfolding write_each_timed
write_each_timed_lem [] g content h = simp append-nil
write_each_timed_lem (c ∷ cs) g content h = simp (
  write_uint32_lem _ g content h.0.2,
  write_command_lem c g _ h.0,
  write_each_timed_lem cs g _ h.1,
  append_assoc,
)

pub write_basic_commands_lem :
    (cs : List MultiCastCommand) (g : Generator)
    → length cs < 2 ^ 32
    → All IsCommand cs
    → write_basic_commands cs (written g []) ≡ ok (written g (words_bytes (basic_words cs)))
unfolding write_basic_commands
write_basic_commands_lem cs g n h = simp (write_uint32_lem _ g [] n, write_each_lem cs g _ h)

pub write_timed_commands_lem :
    (cs : List MultiCastCommand) (g : Generator)
    → length cs < 2 ^ 32
    → All IsCommand cs
    → write_timed_commands cs (written g []) ≡ ok (written g (words_bytes (timed_words cs)))
unfolding write_timed_commands
write_timed_commands_lem cs g n h = simp (write_uint32_lem _ g [] n, write_each_timed_lem cs g _ h)

length-each_words : (cs : List MultiCastCommand) → length (each_words cs) ≡ 5 * length cs
length-each_words [] = refl
length-each_words (c ∷ cs) = omega (arith, length-each_words cs)

length-each_timed_words :
    (cs : List MultiCastCommand) → length (each_timed_words cs) ≡ 6 * length cs
length-each_timed_words [] = refl
length-each_timed_words (c ∷ cs) = omega (arith, length-each_timed_words cs)

-- The regions are exactly as long as what is written to them.
pub length-basic_words :
    (cs : List MultiCastCommand) → length (words_bytes (basic_words cs)) ≡ 4 + (5 * 4) * length cs
length-basic_words cs = omega (arith, length-words_bytes (basic_words cs), length-each_words cs)

pub length-timed_words :
    (cs : List MultiCastCommand)
    → length (words_bytes (timed_words cs)) ≡ 4 + (4 + 5 * 4) * length cs
length-timed_words cs =
    omega (arith, length-words_bytes (timed_words cs), length-each_timed_words cs)
