-- ===== src/Commands/Command.antt =====
-- One command (spinn_front_end_common/utility_models/multi_cast_command.py).
use spi_nnfront_end_common.Common.{
  ℕ, Bool, true, false, Option, none, some, Result, ok, err, configuration_exception, ltb, ◌>>=◌,
  ◌>>◌, raise_if, ◌&&◌, ◌==◌,
}
use spi_nnfront_end_common.Common.Int.{ℤ, pos, negsuc}

pub record MultiCastCommand : Type 0 where
  pub key : ℕ
  pub payload : Option ℕ
  pub time : Option ℕ
  pub repeat : ℕ
  pub delay_between_repeats : ℕ

-- `if value < 0 or value > 0xFFFF: raise`
abbrev pub between_0_and_65535 : ℤ → Result ℕ
between_0_and_65535 (negsuc n) = err configuration_exception
between_0_and_65535 (pos n) = do raise_if (ltb 0xFFFF n) configuration_exception; ok n

unfoldable pub new_command : ℕ → Option ℕ → Option ℕ → ℤ → ℤ → Result MultiCastCommand
new_command key payload time repeat delay_between_repeats = do
  n_repeat ← between_0_and_65535 repeat
  delay ← between_0_and_65535 delay_between_repeats
  raise_if (ltb 0 delay && n_repeat == 0) configuration_exception
  ok (record {
    key = key;
    payload = payload;
    time = time;
    repeat = n_repeat;
    delay_between_repeats = delay;
  })

abbrev pub is_timed : MultiCastCommand → Bool
is_timed c = elim c.time [ none ↦ false | some t ↦ true ]

-- `value or 0`
abbrev pub or_zero : Option ℕ → ℕ
or_zero none = 0
or_zero (some n) = n

-- _HAS_PAYLOAD, where `is_payload`, or _HAS_NO_PAYLOAD
abbrev pub has_payload : Option ℕ → ℕ
has_payload none = 0
has_payload (some n) = 1
