-- ===== src/Journal/Samples.antt =====
-- A memory that stands for the flash, and a log of two sectors in it.
use toob_loader.Common.{ℕ, ◌+◌, List, [], ◌∷◌, ◌++◌, length, take, drop, replicate, none}
use toob_loader.Common.{true}
use toob_loader.Status.{ok_status, Result, ok, err, crypto, not_found}
use toob_loader.Hal.{FlashHal, CryptoHal}
use toob_loader.Journal.{Journal, Sector}
use toob_loader.Journal.Wire.{header_bytes}

abbrev pub memory : FlashHal (List ℕ)
memory = record {
  read = λ s a n. ok (take n (drop a s));
  write = λ s a bs. (ok_status, take a s ++ (bs ++ drop (a + length bs) s));
  erase_sector = λ s a. (ok_status, take a s ++ (replicate 256 255 ++ drop (a + 256) s));
  max_sector_size = 256;
  max_erase_cycles = 0;
  write_align = 8;
  erased_value = 255;
  erase_time_us_max = 0;
  write_time_us_page = 0;
  get_supply_mv = none;
}

abbrev pub first : Sector
first = record { addr = 0; size = 256 }

abbrev pub second : Sector
second = record { addr = 256; size = 256 }

abbrev pub tmr : List ℕ
tmr = replicate 112 0

-- Sequence 5 with the slots `slots`, 128 bytes, and sequence 4 with none in use.
abbrev pub log_with : List ℕ → List ℕ
log_with slots = header_bytes 5 1 tmr ++ (slots ++ (header_bytes 4 1 tmr ++ replicate 128 255))

abbrev pub blank_log : List ℕ
blank_log = log_with (replicate 128 255)

abbrev pub two : List Sector
two = first ∷ (second ∷ [])

abbrev pub journal_at : ℕ → Journal
journal_at offset = record {
  active_index = 0;
  sequence_id = 5;
  erase_count = 1;
  tmr = tmr;
  write_offset = offset;
  key = none;
  initialized = true;
}

abbrev pub no_hash : List (List ℕ) → Result (List ℕ)
no_hash segments = err crypto

-- A chip without identity and without a hash.
abbrev pub no_crypto : CryptoHal
no_crypto = record {
  read_chip_uid = err not_found;
  read_pubkey = λ i. err not_found;
  hash = no_hash;
}
