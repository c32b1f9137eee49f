-- ===== src/Rollback/Tests.antt =====
-- Instances of the theorems on versions and on one block of a revert.
use toob_loader.Common.{
  ℕ, ◌+◌, ◌≤◌, ◌≡◌, ◌↔◌, ◌⊎◌, Bool, false, true, refl, arith, List, ◌++◌, Option, none, replicate,
}
use toob_loader.Status.{Status, ok_status, Result, ok}
use toob_loader.Hal.{SlotCaps, ReadErrorsFail}
use toob_loader.Crc32.{compute, flash_stream, fill}
use toob_loader.Journal.UpdateTmr.{read_counter_safe}
use toob_loader.Journal.Wire.{is_fully_erased}
use toob_loader.Journal.{Journal, same_bytes}
use toob_loader.Journal.Wire.{seal, header_bytes}
use toob_loader.Journal.Intent
use toob_loader.Journal.Append.{append}
use toob_loader.Journal.Fields.{entry_of}
use toob_loader.Journal.Samples.{memory, two, journal_at, no_crypto, blank_log}
use toob_loader.Effect.{
  execute, execute_one, is_allowed, is_reached, perform, read_back, erase_safe,
}
use toob_loader.Effect.{
  erase_loop, scan_dirty, check_reached, stream_copy, copy_loop, compute_erased_crc,
}
use toob_loader.Rollback.{
  ChipConfig, plan_chunk, aligned_sector, cut_block, identical_loop, inspect_block, write_block,
  verify_svn, persisted_svn, target_app,
}
use toob_loader.Rollback.Svn.{verify_svn-accepts, CounterAllows}
use toob_loader.Rollback.Chunk.{inspect_block-write_block}

verify_svn-accepts_example :
    (verify_svn (journal_at 128) (ok 3) (ok 3) 4 target_app ≡ ok_status) ↔ (
      (persisted_svn target_app (journal_at 128).tmr ≤ 4)
      × CounterAllows 4 (read_counter_safe (ok 3) (ok 3)))
verify_svn-accepts_example = verify_svn-accepts (journal_at 128) (ok 3) (ok 3) 4 target_app refl

-- A log of two sectors, the application slot behind it, and the staging slot behind that.
abbrev chip : ChipConfig
chip = record {
  app_slot_addr = 512;
  app_slot_size = 256;
  staging_slot_addr = 768;
  flash_total_size = 1024;
  max_retries = 3;
  max_recovery_retries = 3;
}

no_errors : ReadErrorsFail memory
no_errors = record { read_fails = λ s a n e h. absurd (cc h) }

abbrev no_caps : Option (SlotCaps (List ℕ))
no_caps = none

abbrev sector_size : ℕ → Result ℕ
sector_size a = ok 256

abbrev before : List ℕ
before = blank_log ++ (replicate 256 4 ++ replicate 256 3)

abbrev entry : List ℕ
entry = entry_of Intent.txn_rollback_pending 0 0

abbrev inspected : Result (ℕ × ℕ × ℕ × Bool)
inspected =
    inspect_block memory two no_crypto 512 sector_size no_caps (ok 0) (ok 0) chip before 0 256

abbrev written : Status × Journal × List ℕ
written =
    write_block memory two no_crypto 512 sector_size no_caps (ok 0) (ok 0) chip (journal_at 128)
      before entry 0 256 (compute (replicate 256 3))

seen : inspected ≡ ok (256, 256, compute (replicate 256 3), false)
unfolding inspect_block aligned_sector cut_block identical_loop flash_stream fill compute
    header_bytes
seen = refl

reverted : written ≡ (ok_status, written.1, written.2)
unfolding write_block append execute compute_erased_crc compute execute_one is_allowed is_reached
    flash_stream fill perform read_back erase_safe erase_loop scan_dirty is_fully_erased
    check_reached stream_copy copy_loop plan_chunk seal same_bytes header_bytes
reverted = refl

inspect_block-write_block_example :
    ((◌≡◌ {A = Bool} false true) ⊎ (0 + 256 ≤ 256))
    × (flash_stream memory before (768 + 0) 256 512 ≡ ok (compute (replicate 256 3)))
    × (flash_stream memory written.2 (512 + 0) 256 512 ≡ ok (compute (replicate 256 3)))
inspect_block-write_block_example =
    inspect_block-write_block memory no_errors two no_crypto 512 sector_size no_caps (ok 0) (ok 0)
      chip (journal_at 128) before entry 0 256 256 256 (compute (replicate 256 3)) false written.1
      written.2 (omega arith) (omega arith) seen reverted
