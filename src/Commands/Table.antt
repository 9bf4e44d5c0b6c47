-- ===== src/Commands/Table.antt =====
-- The regions that the command sender reserves and fills.
use spi_nnfront_end_common.Common.{ℕ, ◌%◌, ◌<◌, ◌≡◌, refl, List, [], ◌∷◌, ok, arith}
use spi_nnfront_end_common.Common.Words.{Bytes, words_bytes}
use spi_nnfront_end_common.Dsg.Database.{
  Region, insert_region, set_memory_region, get_region_size, set_region_content, reference_in_use,
}
use spi_nnfront_end_common.Dsg.Generator.{
  new_generator, reserve_memory_region, switch_write_focus, write_array, end_specification,
  end_write_block, end_block, check_write_block,
}
use spi_nnfront_end_common.Dsg.Writing.{region, writing, Fills}
use spi_nnfront_end_common.Commands.Spec.{reserve_memory_regions, get_simulation_header_array}

abbrev pub table : ℕ → ℕ → ℕ → Bytes → Bytes → Bytes → Bytes → List Region
table a b c w x y z =
    region 0 12 w ∷ region 1 a x ∷ region 2 b y ∷ region 3 c z ∷ region 4 28 [] ∷ []

pub reserved :
    (a b c : ℕ)
    → a % 4 ≡ 0
    → b % 4 ≡ 0
    → c % 4 ≡ 0
    → reserve_memory_regions a b c (new_generator []) ≡ ok (new_generator (table a b c [] [] [] []))
unfolding reserve_memory_regions reserve_memory_region set_memory_region insert_region
    reference_in_use
reserved a b c p q r = rw (p, q, r) refl

module _ (a b c : ℕ) where
  pub started :
      switch_write_focus 0 (new_generator (table a b c [] [] [] []))
      ≡ ok (writing 0 12 [] (table a b c [] [] [] []))
  unfolding switch_write_focus end_write_block get_region_size
  started = refl

  pub at_timed :
      (w : Bytes)
      → Fills 12 w
      → 0 < a
      → switch_write_focus 1 (writing 0 12 w (table a b c [] [] [] []))
        ≡ ok (writing 1 a [] (table a b c w [] [] []))
  unfolding switch_write_focus end_write_block end_block check_write_block set_region_content
      get_region_size
  at_timed [] h r = absurd (omega arith)
  at_timed (w0 ∷ w) h r = ground arith

  pub at_start_resume :
      (w x : Bytes)
      → Fills a x
      → 0 < b
      → switch_write_focus 2 (writing 1 a x (table a b c w [] [] []))
        ≡ ok (writing 2 b [] (table a b c w x [] []))
  unfolding switch_write_focus end_write_block end_block check_write_block set_region_content
      get_region_size
  at_start_resume w [] h r = absurd (omega arith)
  at_start_resume w (x0 ∷ x) h r = ground arith

  pub at_stop_pause :
      (w x y : Bytes)
      → Fills b y
      → 0 < c
      → switch_write_focus 3 (writing 2 b y (table a b c w x [] []))
        ≡ ok (writing 3 c [] (table a b c w x y []))
  unfolding switch_write_focus end_write_block end_block check_write_block set_region_content
      get_region_size
  at_stop_pause w x [] h r = absurd (omega arith)
  at_stop_pause w x (y0 ∷ y) h r = ground arith

  pub at_end :
      (w x y z : Bytes)
      → Fills c z
      → end_specification (writing 3 c z (table a b c w x y []))
        ≡ ok (writing 3 c [] (table a b c w x y z))
  unfolding end_specification end_write_block end_block check_write_block set_region_content
  at_end w x y [] h = absurd (omega arith)
  at_end w x y (z0 ∷ z) h = ground arith

  pub header_written :
      (hash time_step port : ℕ)
      → write_array
          (words_bytes (get_simulation_header_array hash time_step port))
          (writing 0 12 [] (table a b c [] [] [] []))
        ≡ ok (
            writing 0 12
              (words_bytes (get_simulation_header_array hash time_step port))
              (table a b c [] [] [] []))
  unfolding write_array
  header_written hash time_step port = refl
