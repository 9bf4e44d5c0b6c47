-- ===== src/Commands/Reader.antt =====
-- The regions as the core reads them (c_common/models/command_sender_multicast_source/src/
-- command_sender_multicast_source.c: `command_list` and `timed_command_list`).
use spi_nnfront_end_common.Common.{
  ℕ, zero, suc, ◌/◌, ◌^◌, ◌<◌, ◌≡◌, refl, sym, ap, ◌∙◌, List, [], ◌∷◌, map, append-nil, Result, ok,
  err, struct_error, ds_database_exception, ◌==◌, if◌then◌else◌, length, All, arith, ◌>>=◌,
}
use spi_nnfront_end_common.Common.Words.{
  Bytes, AllWords, words_bytes, unpack_words, unpack_words-pack, length-words_bytes,
}
use spi_nnfront_end_common.Dsg.Database.{Region}
use spi_nnfront_end_common.Commands.Command.{MultiCastCommand, or_zero, has_payload}
use spi_nnfront_end_common.Commands.Regions.{
  IsCommand, each_words, basic_words, each_timed_words, timed_words, each_words-AllWords,
  each_timed_words-AllWords,
}

-- `command`
pub record Received : Type 0 where
  pub key : ℕ
  pub has_payload : ℕ
  pub payload : ℕ
  pub repeats : ℕ
  pub delay : ℕ

-- `timed_command`
pub record TimedReceived : Type 0 where
  pub time : ℕ
  pub command : Received

abbrev pub received : MultiCastCommand → Received
received c = record {
  key = c.key;
  has_payload = has_payload c.payload;
  payload = or_zero c.payload;
  repeats = c.repeat;
  delay = c.delay_between_repeats;
}

abbrev pub timed_received : MultiCastCommand → TimedReceived
timed_received c = record { time = or_zero c.time; command = received c }

-- The array of a `command_list`.
unfoldable pub commands_from : ℕ → List ℕ → Result (List Received)
commands_from zero ws = ok []
commands_from (suc n) (k ∷ h ∷ p ∷ r ∷ d ∷ ws) = do
  rest ← commands_from n ws
  ok (record { key = k; has_payload = h; payload = p; repeats = r; delay = d } ∷ rest)
commands_from (suc n) _ = err struct_error

unfoldable pub timed_from : ℕ → List ℕ → Result (List TimedReceived)
timed_from zero ws = ok []
timed_from (suc n) (t ∷ k ∷ h ∷ p ∷ r ∷ d ∷ ws) = do
  rest ← timed_from n ws
  ok (
      record {
        time = t;
        command = record { key = k; has_payload = h; payload = p; repeats = r; delay = d };
      }
      ∷ rest)
timed_from (suc n) _ = err struct_error

-- `size`, then that many.
abbrev pub sized {ℓ} : {A : Type ℓ} → (ℕ → List ℕ → Result A) → List ℕ → Result A
sized from [] = err struct_error
sized from (n ∷ ws) = from n ws

abbrev pub read_list {ℓ} : {A : Type ℓ} → (ℕ → List ℕ → Result A) → Bytes → Result A
read_list from bytes = do ws ← unpack_words (length bytes / 4) bytes; sized from ws

-- The content of a region.
unfoldable pub content_of : ℕ → List Region → Result Bytes
content_of n [] = err ds_database_exception
content_of n (r ∷ rs) = if n == r.region_num then ok r.content else content_of n rs

commands_from_lem :
    (cs : List MultiCastCommand) → commands_from (length cs) (each_words cs) ≡ ok (map received cs)
unfolding commands_from
commands_from_lem [] = refl
commands_from_lem (c ∷ cs) = rw (commands_from_lem cs) refl

timed_from_lem :
    (cs : List MultiCastCommand)
    → timed_from (length cs) (each_timed_words cs) ≡ ok (map timed_received cs)
unfolding timed_from
timed_from_lem [] = refl
timed_from_lem (c ∷ cs) = rw (timed_from_lem cs) refl

pub unpacked :
    (ws : List ℕ)
    → AllWords ws
    → unpack_words (length (words_bytes ws) / 4) (words_bytes ws) ≡ ok ws
unpacked ws h =
    let n : length (words_bytes ws) / 4 ≡ length ws = omega (arith, length-words_bytes ws) in
    rw n (
      ap (unpack_words (length ws)) (sym (append-nil (words_bytes ws))) ∙ unpack_words-pack ws [] h)

pub read_list-basic :
    (cs : List MultiCastCommand)
    → length cs < 2 ^ 32
    → All IsCommand cs
    → read_list commands_from (words_bytes (basic_words cs)) ≡ ok (map received cs)
read_list-basic cs n h =
    simp (unpacked (basic_words cs) (n, each_words-AllWords cs h), commands_from_lem cs)

pub read_list-timed :
    (cs : List MultiCastCommand)
    → length cs < 2 ^ 32
    → All IsCommand cs
    → read_list timed_from (words_bytes (timed_words cs)) ≡ ok (map timed_received cs)
read_list-timed cs n h =
    simp (unpacked (timed_words cs) (n, each_timed_words-AllWords cs h), timed_from_lem cs)
