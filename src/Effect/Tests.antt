-- ===== src/Effect/Tests.antt =====
-- Runs of effects in a memory of two sectors, and instances of the theorems.
use toob_loader.Common.{ℕ, ◌≡◌, ◌≢◌, refl, All, List, [], ◌∷◌, ◌++◌, Option, none, replicate}
use toob_loader.Status.{Status, ok_status, Result, ok}
use toob_loader.Common.{◌+◌, ◌<◌, true, if◌then◌else◌, arith}
use toob_loader.Hal.{FlashHal, SlotCaps, ReadErrorsFail}
use toob_loader.Crc32.{compute, flash_stream, fill}
use toob_loader.Journal.Wire.{is_fully_erased}
use toob_loader.Effect.{
  execute_one, is_allowed, is_reached, perform, read_back, erase_safe, erase_loop,
}
use toob_loader.Effect.{scan_dirty, check_reached, stream_copy, copy_loop}
use toob_loader.Journal.{Journal}
use toob_loader.Journal.Samples.{memory, two, journal_at, no_crypto}
use toob_loader.Effect.{
  FlashEffect, eff_erase, eff_copy, eff_flip, AllowedRegion, execute, compute_erased_crc,
}
use toob_loader.Effect.Verified.{Inside}
use toob_loader.Effect.Executed.{execute-verified, execute-again}
use toob_loader.Effect.Admit.{Component, Slot, admit_or_defer, add_components, add_component}
use toob_loader.Effect.Admit.{is_in_slot, num_sectors, swap_load, is_worn, check_supply}
use toob_loader.Effect.Wear.{admit_or_defer-unworn, sectors_in, sectors_of}

no_errors : ReadErrorsFail memory
no_errors = record { read_fails = λ s a n e h. absurd (cc h) }

abbrev no_caps : Option (SlotCaps (List ℕ))
no_caps = none

abbrev sector_size : ℕ → Result ℕ
sector_size a = ok 256

-- The first sector is in use, and so is the second one, with other bytes.
abbrev in_use : List ℕ
in_use = replicate 256 3 ++ replicate 256 4

abbrev erase : FlashEffect
erase = record { op = eff_erase; src = 0; dst = 256; len = 256; post_crc = compute_erased_crc 256 }

abbrev copy : FlashEffect
copy = record { op = eff_copy; src = 0; dst = 256; len = 32; post_crc = compute (replicate 32 3) }

abbrev second_half : List AllowedRegion
second_half = record { base_addr = 256; max_size = 256 } ∷ []

abbrev run : List FlashEffect → Status × Journal × List ℕ
run =
    execute memory two no_crypto 512 sector_size no_caps (ok 0) (ok 0) second_half (journal_at 0)
      in_use

erased : run (erase ∷ []) ≡ (ok_status, journal_at 0, replicate 256 3 ++ replicate 256 255)
unfolding execute compute_erased_crc compute execute_one is_allowed is_reached flash_stream fill
    perform read_back erase_safe erase_loop scan_dirty is_fully_erased check_reached
erased = refl

copied :
    run (erase ∷ (copy ∷ []))
    ≡ (ok_status, journal_at 0, replicate 256 3 ++ (replicate 32 3 ++ replicate 224 255))
unfolding execute compute_erased_crc compute execute_one is_allowed is_reached flash_stream fill
    perform read_back erase_safe erase_loop scan_dirty is_fully_erased check_reached stream_copy
    copy_loop
copied = refl

copy_not_flip : copy.op ≢ eff_flip
copy_not_flip e = cc e

erase_not_flip : erase.op ≢ eff_flip
erase_not_flip e = cc e

execute-verified_example :
    All (Inside second_half) (erase ∷ (copy ∷ []))
    × (flash_stream memory (replicate 256 3 ++ (replicate 32 3 ++ replicate 224 255)) 256 32 512
        ≡ ok (compute (replicate 32 3)))
execute-verified_example =
    execute-verified memory no_errors two no_crypto 512 sector_size no_caps (ok 0) (ok 0)
      second_half (journal_at 0) in_use (erase ∷ []) copy (journal_at 0)
      (replicate 256 3 ++ (replicate 32 3 ++ replicate 224 255)) copy_not_flip copied

execute-again_example :
    execute memory two no_crypto 512 sector_size no_caps
      (ok 0)
      (ok 0)
      second_half
      (journal_at 0)
      (replicate 256 3 ++ replicate 256 255)
      (erase ∷ [])
    ≡ (ok_status, journal_at 0, replicate 256 3 ++ replicate 256 255)
execute-again_example =
    execute-again memory no_errors two no_crypto 512 sector_size no_caps (ok 0) (ok 0) second_half
      (journal_at 0) in_use erase (journal_at 0) (replicate 256 3 ++ replicate 256 255)
      erase_not_flip erased

-- The memory as a driver with a budget of 100 erases, and a plan for both slots.
abbrev budgeted : FlashHal (List ℕ)
budgeted = record {
  read = memory.read;
  write = memory.write;
  erase_sector = memory.erase_sector;
  max_sector_size = 256;
  max_erase_cycles = 100;
  write_align = 8;
  erased_value = 255;
  erase_time_us_max = 0;
  write_time_us_page = 0;
  get_supply_mv = none;
}

abbrev app_slot : Slot
app_slot = record { addr = 256; size = 256 }

abbrev staging_slot : Slot
staging_slot = record { addr = 512; size = 256 }

abbrev parts : List Component
parts =
    record { target_addr = 300; image_size = 200 }
    ∷ (record { target_addr = 600; image_size = 300 } ∷ [])

admitted :
    admit_or_defer budgeted app_slot staging_slot in_use (replicate 112 0) 500 parts true
    ≡ ok_status
unfolding admit_or_defer add_components add_component is_in_slot num_sectors swap_load is_worn
    check_supply
admitted = refl

not_exhausted : (if true then sectors_of 500 256 else 0) + sectors_in app_slot 256 parts ≡ 3
not_exhausted = refl

admit_or_defer-unworn_example :
    0 + ((if true then sectors_of 500 256 else 0) + sectors_in app_slot 256 parts) < 100
admit_or_defer-unworn_example =
    admit_or_defer-unworn budgeted app_slot staging_slot in_use (replicate 112 0) 500 parts true 256
      refl (omega arith) (omega arith) (omega arith) (omega arith, (omega arith, tt))
      (omega (arith, not_exhausted)) admitted
