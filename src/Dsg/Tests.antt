-- ===== src/Dsg/Tests.antt =====
-- A core with two regions, written, set up and loaded, and the theorems at it.
use spi_nnfront_end_common.Common.{
  ◌+◌, ◌^◌, ◌<◌, ◌≡◌, refl, none, some, List, [], ◌∷◌, ok, All, arith,
}
use spi_nnfront_end_common.Dsg.Database.{
  Region, set_memory_region, insert_region, reference_in_use, get_region_size, set_region_content,
  get_total_regions_size,
}
use spi_nnfront_end_common.Dsg.Generator.{
  Generator, new_generator, Command, reserve, switch_focus, value, array, finish, commands, command,
  reserve_memory_region, switch_write_focus, write_value, write_array, end_specification,
  end_write_block, end_block, check_write_block,
}
use spi_nnfront_end_common.Dsg.Malloc.{Core, malloc_core, malloc_size}
use spi_nnfront_end_common.Dsg.Table.{Fits}
use spi_nnfront_end_common.Dsg.Fits.{IsValid, commands-IsValid}
use spi_nnfront_end_common.Dsg.Layout.{placed_core, malloc_core-placed}
use spi_nnfront_end_common.Dsg.Loaded.{IsLoaded, load_and_check-IsLoaded}

abbrev calls : List Command
calls =
    reserve 1 8 none
    ∷ reserve 0 6 (some 5)
    ∷ switch_focus 1
    ∷ value (1 ∷ 0 ∷ 0 ∷ 0 ∷ []) 4
    ∷ array (2 ∷ 0 ∷ 0 ∷ 0 ∷ [])
    ∷ finish
    ∷ []

abbrev two_regions : List Region
two_regions =
    record { region_num = 0; size = 8; reference_num = some 5; content = []; pointer = none }
    ∷ record {
      region_num = 1;
      size = 8;
      reference_num = none;
      content = 1 ∷ 0 ∷ 0 ∷ 0 ∷ 2 ∷ 0 ∷ 0 ∷ 0 ∷ [];
      pointer = none;
    }
    ∷ []

abbrev written : Generator
written = record { regions = two_regions; content = some []; region_num = some 1; size = some 8 }

calls_return : commands calls (new_generator []) ≡ ok written
unfolding commands command reserve_memory_region switch_write_focus write_value write_array
    end_specification end_write_block end_block check_write_block set_memory_region insert_region
    reference_in_use get_region_size set_region_content
calls_return = refl

commands-IsValid_example : IsValid written
commands-IsValid_example = commands-IsValid calls written calls_return

abbrev core : Core
core = record { start_address = none; regions = two_regions }

malloc_core-placed_example : malloc_core core 4096 ≡ ok (placed_core 4096 two_regions)
malloc_core-placed_example = malloc_core-placed core 4096 (omega arith, (omega arith, tt))

two_regions-Fits : All Fits two_regions
two_regions-Fits = ((omega arith, refl, refl), ((omega arith, refl, refl), tt))

has_room : 4096 + malloc_size two_regions < 2 ^ 32
unfolding malloc_size get_total_regions_size
has_room = omega arith

-- Region 2 refers to a region of another core.
load_and_check-IsLoaded_example : IsLoaded two_regions 4096 ((2, some 8192) ∷ [])
load_and_check-IsLoaded_example =
    load_and_check-IsLoaded two_regions 4096 ((2, some 8192) ∷ []) two_regions-Fits
      (omega arith, (omega arith, tt)) ((omega arith, (8192, refl, omega arith)), tt) has_room
