-- ===== src/Dsg/Writing.antt =====
-- A core's regions while a data specification is written.
use spi_nnfront_end_common.Common.{ℕ, ◌%◌, ◌<◌, ◌≡◌, none, some, List, length}
use spi_nnfront_end_common.Common.Words.{Bytes}
use spi_nnfront_end_common.Dsg.Database.{Region}
use spi_nnfront_end_common.Dsg.Generator.{Generator}

abbrev pub region : ℕ → ℕ → Bytes → Region
region n size content = record {
  region_num = n;
  size = size;
  reference_num = none;
  content = content;
  pointer = none;
}

-- While a region is written.
abbrev pub writing : ℕ → ℕ → Bytes → List Region → Generator
writing n size content regions = record {
  regions = regions;
  content = some content;
  region_num = some n;
  size = some size;
}

-- A block that fills its region.
abbrev pub Fills : ℕ → Bytes → Type 0
Fills size block = (0 < length block) × (length block ≡ size) × (size % 4 ≡ 0)
