-- ===== src/Monitor/Regions.antt =====
-- The regions that an extra monitor reserves and fills.
use spi_nnfront_end_common.Common.{
  ℕ, ◌%◌, ◌≤◌, ◌<◌, ◌≡◌, refl, none, List, [], ◌∷◌, ◌++◌, append_assoc, append-nil, ok, err,
  data_spec_exception, length, ◌>>=◌, arith,
}
use spi_nnfront_end_common.Common.Words.{Bytes, AllWords, words_bytes}
use spi_nnfront_end_common.Dsg.Database.{
  Region, insert_region, set_memory_region, get_region_size, set_region_content, reference_in_use,
}
use spi_nnfront_end_common.Dsg.Generator.{
  Generator, new_generator, reserve_memory_region, switch_write_focus, end_specification,
  end_write_block, end_block, check_write_block,
}
use spi_nnfront_end_common.Dsg.Writing.{region, writing}
use spi_nnfront_end_common.Commands.Regions.{written, write_uint32_lem}
use spi_nnfront_end_common.Monitor.Config.{write_values, data_in_config_size}

pub write_values_lem :
    (ws : List ℕ) (g : Generator) (content : Bytes)
    → AllWords ws
    → write_values ws (written g content) ≡ ok (written g (content ++ words_bytes ws))
unfolding write_values
write_values_lem [] g content h = simp append-nil
write_values_lem (w ∷ ws) g content h =
    simp (write_uint32_lem w g content h.0, write_values_lem ws g _ h.1, append_assoc)

-- A block that is not empty and fits its region.
abbrev FitsIn : ℕ → Bytes → Type 0
FitsIn size block = (0 < length block) × (length block ≤ size) × (length block % 4 ≡ 0)

abbrev pub after_reinjection : Bytes → List Region
after_reinjection w = region 0 20 w ∷ []

abbrev pub after_out : Bytes → Bytes → List Region
after_out w x = region 0 20 w ∷ region 1 20 x ∷ []

abbrev pub after_in : Bytes → Bytes → Bytes → List Region
after_in w x y = region 0 20 w ∷ region 1 20 x ∷ region 2 data_in_config_size y ∷ []

abbrev pub all_regions : Bytes → Bytes → Bytes → List Region
all_regions w x y =
    region 0 20 w ∷ region 1 20 x ∷ region 2 data_in_config_size y ∷ region 3 16 [] ∷ []

pub first_reserved :
    reserve_memory_region 0 20 none (new_generator []) ≡ ok (new_generator (after_reinjection []))
unfolding reserve_memory_region set_memory_region insert_region reference_in_use
first_reserved = refl

pub first_started :
    switch_write_focus 0 (new_generator (after_reinjection []))
    ≡ ok (writing 0 20 [] (after_reinjection []))
unfolding switch_write_focus end_write_block get_region_size
first_started = refl

pub out_reserved :
    (w : Bytes)
    → reserve_memory_region 1 20 none (writing 0 20 w (after_reinjection []))
      ≡ ok (writing 0 20 w (after_out [] []))
unfolding reserve_memory_region set_memory_region insert_region reference_in_use
out_reserved w = refl

pub out_started :
    (w : Bytes)
    → FitsIn 20 w
    → switch_write_focus 1 (writing 0 20 w (after_out [] []))
      ≡ ok (writing 1 20 [] (after_out w []))
unfolding switch_write_focus end_write_block end_block check_write_block set_region_content
    get_region_size
out_started [] h = absurd (omega arith)
out_started (w0 ∷ w) h = ground arith

pub in_reserved :
    (w x : Bytes)
    → reserve_memory_region 2 data_in_config_size none (writing 1 20 x (after_out w []))
      ≡ ok (writing 1 20 x (after_in w [] []))
unfolding reserve_memory_region set_memory_region insert_region reference_in_use
in_reserved w x = refl

pub in_started :
    (w x : Bytes)
    → FitsIn 20 x
    → switch_write_focus 2 (writing 1 20 x (after_in w [] []))
      ≡ ok (writing 2 data_in_config_size [] (after_in w x []))
unfolding switch_write_focus end_write_block end_block check_write_block set_region_content
    get_region_size
in_started w [] h = absurd (omega arith)
in_started w (x0 ∷ x) h = ground arith

pub ended :
    (w x y : Bytes)
    → FitsIn data_in_config_size y
    → (reserve_memory_region 3 16 none (writing 2 data_in_config_size y (after_in w x []))
        >>= end_specification)
      ≡ ok (writing 2 data_in_config_size [] (all_regions w x y))
unfolding reserve_memory_region set_memory_region insert_region reference_in_use end_specification
    end_write_block end_block check_write_block set_region_content
ended w x [] h = absurd (omega arith)
ended w x (y0 ∷ y) h = ground arith

pub too_long :
    (w x y : Bytes)
    → data_in_config_size < length y
    → (reserve_memory_region 3 16 none (writing 2 data_in_config_size y (after_in w x []))
        >>= end_specification)
      ≡ err data_spec_exception
unfolding reserve_memory_region set_memory_region insert_region reference_in_use end_specification
    end_write_block end_block check_write_block
too_long w x [] h = absurd (omega arith)
too_long w x (y0 ∷ y) h = ground arith
