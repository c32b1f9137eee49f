-- ===== src/Journal/InitTests.antt =====
-- An instance of the theorem on the start of the journal.
use toob_loader.Common.{ℕ, ◌≡◌, refl, inr, arith, true, ◌==◌, if◌then◌else◌}
use toob_loader.Common.{List, [], ◌∷◌, take, replicate, none, some}
use toob_loader.Status.{ok_status, ok, err, flash}
use toob_loader.Hal.{FlashHal}
use toob_loader.Journal.{
  Sector, is_newer_sequence, read_header, find_sector_by_seq, scan_for_frontier,
}
use toob_loader.Journal.Samples.{journal_at, no_crypto}
use toob_loader.Journal.Wire.{header_bytes, verify_header_crc}
use toob_loader.Journal.Migrate.{version_fields}
use toob_loader.Journal.Init.{
  init, newest_from, load_newest, candidate, returned, with_key, is_layout_ok,
}
use toob_loader.Journal.Started.{init-voted}
use toob_loader.Crc32.{compute}
use toob_loader.Common.{◌++◌}

abbrev good : List ℕ
good = version_fields ++ replicate 108 1

abbrev odd : List ℕ
odd = version_fields ++ replicate 108 9

-- Sector `i` holds a header with sequence number 9 - i; the newest payload is the odd one out.
abbrev headers : FlashHal (Unit {0})
headers = record {
  read = λ s a n.
      if a == 0
      then ok (take n (header_bytes 9 1 odd))
      else if a == 256
      then ok (take n (header_bytes 8 1 good))
      else if a == 512
      then ok (take n (header_bytes 7 1 good))
      else err flash;
  write = λ s a bs. (ok_status, s);
  erase_sector = λ s a. (ok_status, s);
  max_sector_size = 256;
  max_erase_cycles = 0;
  write_align = 8;
  erased_value = 255;
  erase_time_us_max = 0;
  write_time_us_page = 0;
  get_supply_mv = none;
}

abbrev sector : ℕ → Sector
sector a = record { addr = a; size = 256 }

abbrev four : List Sector
four = sector 0 ∷ (sector 256 ∷ (sector 512 ∷ (sector 768 ∷ [])))

newest : newest_from headers four no_crypto 0 tt four 0 none ≡ some (0, header_bytes 9 1 odd)
unfolding newest_from read_header verify_header_crc header_bytes compute is_newer_sequence
newest = refl

second_newest : find_sector_by_seq headers four tt 8 ≡ some (1, header_bytes 8 1 good)
unfolding find_sector_by_seq read_header verify_header_crc header_bytes compute
second_newest = refl

third_newest : find_sector_by_seq headers four tt 7 ≡ some (2, header_bytes 7 1 good)
unfolding find_sector_by_seq read_header verify_header_crc header_bytes compute
third_newest = refl

candidate-good :
    (candidate 0 (header_bytes 8 1 good) ≡ good) × (candidate 0 (header_bytes 7 1 good) ≡ good)
unfolding candidate header_bytes compute
candidate-good = (refl, refl)

init-voted_example :
    init headers four no_crypto 0 (ok 0) (ok 0) (journal_at 0) tt
    ≡ returned (
      ok_status,
      with_key headers four no_crypto 0 (record (journal_at 0) {
        active_index = 0;
        sequence_id = 9;
        erase_count = 1;
        tmr = good;
        write_offset = scan_for_frontier headers four tt (sector 0);
        initialized = true;
      }),
      tt,
    )
unfolding header_bytes compute
init-voted_example =
    init-voted headers four no_crypto 0 (ok 0) (ok 0) (journal_at 0) tt 0 1 2 (header_bytes 9 1 odd)
      (header_bytes 8 1 good) (header_bytes 7 1 good) good (omega arith) (omega arith)
      (unfold is_layout_ok in refl) newest refl (unfold load_newest in omega arith) refl
      second_newest third_newest (inr (inr candidate-good))
