-- ===== src/Monitor/Written.antt =====
-- The monitor's specification is written, and its core reads it back.
use spi_nnfront_end_common.Common.{
  ℕ, ◌+◌, ◌*◌, ◌^◌, ◌≤◌, ◌<◌, ◌≡◌, refl, ap, ◌∙◌, not, Bool, true, false, none, some, List, [], ◌∷◌,
  ◌++◌, map, ok, err, data_spec_exception, ◌==◌, length, All, ◌>>=◌, arith,
}
use spi_nnfront_end_common.Common.Maps.{lookup}
use spi_nnfront_end_common.Common.Words.{Bytes, AllWords, words_bytes, length-words_bytes}
use spi_nnfront_end_common.Dsg.Database.{Region}
use spi_nnfront_end_common.Dsg.Generator.{
  Generator, new_generator, reserve_memory_region, end_specification,
}
use spi_nnfront_end_common.Dsg.Writing.{writing}
use spi_nnfront_end_common.Commands.Regions.{write_uint32_lem}
use spi_nnfront_end_common.Commands.Reader.{content_of, unpacked}
use spi_nnfront_end_common.Router.Merge.{RoutingEntry}
use spi_nnfront_end_common.SystemRoutes.Entries.{Routes}
use spi_nnfront_end_common.Monitor.Control.{Monitor, bool_value}
use spi_nnfront_end_common.Monitor.Config.{
  inverted_settings, generate_reinjection_config, gatherer_keys, generate_data_speed_up_out_config,
  data_in_config_size, generate_data_speed_up_in_config, generate_monitor_specification,
}
use spi_nnfront_end_common.Monitor.Reader.{read_packet_types, read_data_in, words_of, router_entry}
use spi_nnfront_end_common.Monitor.Regions.{
  write_values_lem, after_reinjection, after_out, after_in, all_regions, first_reserved,
  first_started, out_reserved, out_started, in_reserved, in_started, ended, too_long,
}
use spi_nnfront_end_common.Monitor.Entries.{
  IsEntry, in_words, entries_words-AllWords, length-entries_words, write_entries_lem,
  router_entries_from_lem,
}

module _ (to_route : RoutingEntry → ℕ) (app_id : ℕ) where
  -- The chip has a key and a table whose values fit in words, and its board a key.
  pub record IsWritable (r : Routes) (chip ethernet_chip : ℕ) : Type 0 where
    pub board_key : ℕ
    pub chip_key : ℕ
    pub entries : List RoutingEntry
    pub has_board_key : lookup ethernet_chip r.time_out_keys_by_board ≡ some board_key
    pub has_chip_key : lookup chip r.key_to_destination_map ≡ some chip_key
    pub has_table : lookup chip r.routing_tables ≡ some entries
    pub board_key_fits : board_key < 2 ^ 32
    pub chip_key_fits : chip_key + 2 < 2 ^ 32
    pub table_fits : length entries < 2 ^ 32
    pub entries_fit : All (IsEntry to_route app_id) entries

  -- What the core reads of the regions.
  pub record IsConfigured (m : Monitor) (board_key chip_key : ℕ) (entries : List RoutingEntry)
      (regions : List Region) : Type 0 where
    pub reinjection : (content_of 0 regions >>= words_of >>= read_packet_types) ≡ ok (m, board_key)
    pub data_out : (content_of 1 regions >>= words_of) ≡ ok gatherer_keys
    pub data_in :
        (content_of 2 regions >>= words_of >>= read_data_in)
        ≡ ok (record {
          address_mc_key = chip_key;
          data_mc_key = chip_key + 1;
          boundary_mc_key = chip_key + 2;
          system_router_entries = map (router_entry to_route app_id) entries;
        })

  bool_word : (b : Bool) → bool_value b < 2 ^ 32
  bool_word true = omega arith
  bool_word false = omega arith

  inverted : (b : Bool) → not (bool_value (not b) == 1) ≡ b
  inverted true = refl
  inverted false = refl

  settings_words : (m : Monitor) → AllWords (inverted_settings m)
  settings_words m = (bool_word _, (bool_word _, (bool_word _, (bool_word _, tt))))

  settings_read :
      (m : Monitor) (key : ℕ) → read_packet_types (inverted_settings m ++ key ∷ []) ≡ ok (m, key)
  settings_read m key = simp inverted

  module _ (r : Routes) (chip ethernet_chip : ℕ) (m : Monitor)
      (v : IsWritable r chip ethernet_chip) where
    abbrev w : Bytes
    w = words_bytes (inverted_settings m ++ v.board_key ∷ [])

    abbrev x : Bytes
    x = words_bytes gatherer_keys

    abbrev y : Bytes
    y = words_bytes (in_words to_route app_id v.chip_key v.entries)

    length-in_words : length y ≡ 16 + 12 * length v.entries
    length-in_words = omega (
      arith,
      length-words_bytes (in_words to_route app_id v.chip_key v.entries),
      length-entries_words to_route app_id v.entries,
    )

    reinjection_written :
        generate_reinjection_config (some v.board_key) m (new_generator [])
        ≡ ok (writing 0 20 w (after_reinjection []))
    unfolding generate_reinjection_config
    reinjection_written = simp (
      first_reserved,
      first_started,
      write_values_lem (inverted_settings m) (writing 0 20 [] (after_reinjection [])) []
          (settings_words m),
      write_uint32_lem v.board_key (writing 0 20 [] (after_reinjection []))
          (words_bytes (inverted_settings m)) v.board_key_fits,
    )

    out_written :
        generate_data_speed_up_out_config (writing 0 20 w (after_reinjection []))
        ≡ ok (writing 1 20 x (after_out w []))
    unfolding generate_data_speed_up_out_config
    out_written = simp (
      out_reserved w,
      out_started w (omega arith, omega arith, refl),
      write_values_lem gatherer_keys (writing 1 20 [] (after_out w [])) []
          (omega arith, (omega arith, (omega arith, (omega arith, (omega arith, tt))))),
    )

    in_written :
        generate_data_speed_up_in_config to_route app_id
          (some v.chip_key)
          (some v.entries)
          (writing 1 20 x (after_out w []))
        ≡ ok (writing 2 data_in_config_size y (after_in w x []))
    unfolding generate_data_speed_up_in_config
    in_written =
        let g = writing 2 data_in_config_size [] (after_in w x []) in
        simp (
          in_reserved w x,
          in_started w x (omega arith, omega arith, refl),
          write_values_lem (v.chip_key ∷ (v.chip_key + 1) ∷ (v.chip_key + 2) ∷ []) g [] (
            omega (arith, v.chip_key_fits),
            (omega (arith, v.chip_key_fits), (v.chip_key_fits, tt)),
          ),
          write_uint32_lem (length v.entries) g
              (words_bytes (v.chip_key ∷ (v.chip_key + 1) ∷ (v.chip_key + 2) ∷ [])) v.table_fits,
          write_entries_lem to_route app_id v.entries g
              (words_bytes
                (v.chip_key ∷ (v.chip_key + 1) ∷ (v.chip_key + 2) ∷ length v.entries ∷ []))
              v.entries_fit,
        )

    -- What is left once the last region is written.
    up_to_the_end :
        generate_monitor_specification to_route app_id r chip ethernet_chip m (new_generator []) ≡ (
          reserve_memory_region 3 16 none (writing 2 data_in_config_size y (after_in w x []))
          >>= end_specification)
    unfolding generate_monitor_specification
    up_to_the_end =
        simp (
          v.has_board_key, v.has_chip_key, v.has_table, reinjection_written, out_written,
          in_written,
        )

    in_words_read :
        (words_of y >>= read_data_in)
        ≡ ok (record {
          address_mc_key = v.chip_key;
          data_mc_key = v.chip_key + 1;
          boundary_mc_key = v.chip_key + 2;
          system_router_entries = map (router_entry to_route app_id) v.entries;
        })
    in_words_read = simp (
      unpacked (in_words to_route app_id v.chip_key v.entries) (
        omega (arith, v.chip_key_fits),
        (
          omega (arith, v.chip_key_fits),
          (
            v.chip_key_fits,
            (v.table_fits, entries_words-AllWords to_route app_id v.entries v.entries_fit),
          ),
        ),
      ),
      router_entries_from_lem to_route app_id v.entries,
    )

    all_read : IsConfigured m v.board_key v.chip_key v.entries (all_regions w x y)
    unfolding content_of
    all_read = record {
      reinjection =
          ap (λ ws. ws >>= read_packet_types)
            (unpacked (inverted_settings m ++ v.board_key ∷ [])
              (bool_word _, (bool_word _, (bool_word _, (bool_word _, (v.board_key_fits, tt))))))
          ∙ settings_read m v.board_key;
      data_out =
          unpacked gatherer_keys
            (omega arith, (omega arith, (omega arith, (omega arith, (omega arith, tt)))));
      data_in = in_words_read;
    }

  -- Where the chip of a monitor has a key and a table whose values fit in words, and its board has a
  -- key: with up to 49 entries the monitor's specification is written without an exception, and the core
  -- reads from it the monitor's settings with the key of the board, the keys of the gatherer, the
  -- chip's three keys and the entries of the table; with more it raises the exception for content that
  -- does not fit.
  pub generate_monitor_specification-IsConfigured :
      (r : Routes) (chip ethernet_chip : ℕ) (m : Monitor) (v : IsWritable r chip ethernet_chip)
      → (length v.entries ≤ 49
          → (g : Generator) × (generate_monitor_specification to_route app_id r chip ethernet_chip m
                (new_generator [])
              ≡ ok g)
            × IsConfigured m v.board_key v.chip_key v.entries g.regions)
        × (49 < length v.entries
            → generate_monitor_specification to_route app_id r chip ethernet_chip m
                (new_generator [])
              ≡ err data_spec_exception)
  generate_monitor_specification-IsConfigured r chip ethernet_chip m v =
      let n = length-in_words r chip ethernet_chip m v in
      (
        λ few. (
          _,
          up_to_the_end r chip ethernet_chip m v
              ∙ ended (w r chip ethernet_chip m v) (x r chip ethernet_chip m v)
                  (y r chip ethernet_chip m v)
                  (omega (arith, n), omega (arith, n), omega (arith, n)),
          all_read r chip ethernet_chip m v,
        ),
        λ many.
            up_to_the_end r chip ethernet_chip m v
            ∙ too_long (w r chip ethernet_chip m v) (x r chip ethernet_chip m v)
                (y r chip ethernet_chip m v) (omega (arith, n)),
      )
