-- ===== src/Dsg/Generator.antt =====
-- Writing a data specification (spinn_front_end_common/interface/ds/data_specification_base.py and
-- data_specification_generator.py). Values come encoded by their data type, whose size goes with
-- them. A run ends where a call raises.
use spi_nnfront_end_common.Common.{
  ℕ, ◌+◌, ◌-◌, ◌%◌, not, ◌&&◌, Option, none, some, List, [], ◌∷◌, ◌++◌, Result, ok, err,
  value_error, assertion_error, data_spec_exception, not_implemented_error, ltb, ◌==◌,
  if◌then◌else◌, length, ◌>>=◌, ◌>>◌, raise_if,
}
use spi_nnfront_end_common.Common.Words.{Bytes}
use spi_nnfront_end_common.Dsg.Database.{
  Region, set_memory_region, get_region_size, set_region_content,
}

-- DataSpecificationGenerator, with the regions of its core in the database.
pub record Generator : Type 0 where
  pub regions : List Region
  pub content : Option Bytes
  pub region_num : Option ℕ
  pub size : Option ℕ

abbrev pub new_generator : List Region → Generator
new_generator regions = record { regions = regions; content = none; region_num = none; size = none }

-- "Round up the size"
abbrev pub rounded_up : ℕ → ℕ
rounded_up size = if size % 4 == 0 then size else size + (4 - size % 4)

unfoldable pub reserve_memory_region : ℕ → ℕ → Option ℕ → Generator → Result Generator
reserve_memory_region region size reference g = do
  regions ← set_memory_region region (rounded_up size) reference g.regions
  ok (record g { regions = regions })

abbrev pub asserted {ℓ} : {A : Type ℓ} → Option A → Result A
asserted none = err assertion_error
asserted (some a) = ok a

unfoldable pub check_write_block : Bytes → ℕ → Result (Unit {0})
check_write_block content size = do
  raise_if (ltb size (length content)) data_spec_exception
  raise_if (not (length content % 4 == 0)) not_implemented_error

-- `region number is unknown?!`
abbrev pub known_region : Option ℕ → Result ℕ
known_region none = err data_spec_exception
known_region (some region) = ok region

unfoldable pub end_block : Bytes → Generator → Result Generator
end_block content g = do
  size ← asserted g.size
  check_write_block content size
  region ← known_region g.region_num
  regions ← set_region_content region content g.regions
  ok (record g { regions = regions })

abbrev pub commence_block : Generator → Generator
commence_block g = record g { content = some [] }

-- `self._content is not None and len(self._content) > 0`
abbrev pub end_content : Option Bytes → Generator → Result Generator
end_content none g = ok g
end_content (some []) g = ok g
end_content (some (b ∷ bs)) g = end_block (b ∷ bs) g

unfoldable pub end_write_block : Generator → Result Generator
end_write_block g = do ended ← end_content g.content g; ok (commence_block ended)

unfoldable pub switch_write_focus : ℕ → Generator → Result Generator
switch_write_focus region g = do
  ended ← end_write_block g
  size ← get_region_size region ended.regions
  raise_if (size == 0) data_spec_exception
  ok (record ended { size = some size; region_num = some region })

unfoldable pub write_value : Bytes → ℕ → Generator → Result Generator
write_value as_bytes type_size g = do
  content ← asserted g.content
  raise_if (ltb type_size (length as_bytes)) value_error
  raise_if (not (length content % 4 == 0) && not (length as_bytes % type_size == 0))
      not_implemented_error
  ok (record g { content = some (content ++ as_bytes) })

unfoldable pub write_array : Bytes → Generator → Result Generator
write_array encoded g = do
  content ← asserted g.content
  raise_if (not (length content % 4 == 0)) not_implemented_error
  raise_if (not (length encoded % 4 == 0)) not_implemented_error
  ok (record g { content = some (content ++ encoded) })

unfoldable pub end_specification : Generator → Result Generator
end_specification g = end_write_block g

-- The calls that a vertex makes.
pub data Command : Type 0 where
  reserve : ℕ → ℕ → Option ℕ → Command
  switch_focus : ℕ → Command
  value : Bytes → ℕ → Command
  array : Bytes → Command
  finish : Command

unfoldable pub command : Command → Generator → Result Generator
command (reserve region size reference) g = reserve_memory_region region size reference g
command (switch_focus region) g = switch_write_focus region g
command (value as_bytes type_size) g = write_value as_bytes type_size g
command (array encoded) g = write_array encoded g
command finish g = end_specification g

unfoldable pub commands : List Command → Generator → Result Generator
commands [] g = ok g
commands (c ∷ cs) g = do g' ← command c g; commands cs g'
