-- ===== src/Rollback.antt =====
-- toobloader/core/boot_rollback.c: protection against older versions, the choice of the system that is
-- started after crashes, and the revert of the application slot. The steps of the control-flow
-- integrity tokens and the watchdog's kicks are not modelled.
mod Tests
pub mod Svn
pub mod Chunk
use toob_loader.Common.{
  ℕ, zero, suc, ◌+◌, ◌-◌, ◌*◌, ◌/◌, ◌%◌, ◌^◌, Bool, true, false, not, ◌&&◌, ◌||◌,
}
use toob_loader.Common.{
  ltb, leb, ◌==◌, if◌then◌else◌, List, [], ◌∷◌, Option, none, some, max, replicate,
}
use toob_loader.Status.{
  Status, ok_status, state, not_found, not_supported, invalid_arg, flash_bounds, flash_hw, verify,
  downgrade, timeout, is_ok,
}
use toob_loader.Status.{Result, ok, err, stuck}
use toob_loader.Hal.{FlashHal, CryptoHal, SlotCaps}
use toob_loader.Crc32.{flash_stream}
use toob_loader.Tbm1.Layout.{u32_at}
use toob_loader.Journal.{Journal, Sector, same_bytes}
use toob_loader.Journal.Intent
use toob_loader.Journal.Wire.{intent_of, delta_chunk_id_of, u32_bytes}
use toob_loader.Journal.Append.{append}
use toob_loader.Journal.Reconstruct.{Wanted, reconstruct_txn}
use toob_loader.Journal.UpdateTmr.{update_tmr, read_counter_safe}
use toob_loader.Journal.Init.{get_tmr}
use toob_loader.Journal.Migrate.{patch}
use toob_loader.Journal.Fields.{app_svn_of, svn_recovery_counter_of, stage1_svn_of, entry_of}
use toob_loader.Journal.Fields.{boot_failure_counter_of, recovery_failure_counter_of}
use toob_loader.Journal.Fields.{app_slot_erases_of, with_app_slot_erases}
use toob_loader.Effect.{
  FlashEffect, eff_erase, eff_copy, AllowedRegion, compute_erased_crc, execute,
}

-- `rollback_target_t`
pub data RollbackTarget : Type 0 where
  target_app target_recovery target_stage1 : RollbackTarget

-- The constants of generated_boot_config.h that the rollback uses.
pub record ChipConfig : Type 0 where
  pub app_slot_addr : ℕ
  pub app_slot_size : ℕ
  pub staging_slot_addr : ℕ
  pub flash_total_size : ℕ
  pub max_retries : ℕ
  pub max_recovery_retries : ℕ

-- The floor that the TMR payload holds for a target.
unfoldable pub persisted_svn : RollbackTarget → List ℕ → ℕ
persisted_svn target_app tmr = app_svn_of tmr
persisted_svn target_recovery tmr = svn_recovery_counter_of tmr
persisted_svn target_stage1 tmr = stage1_svn_of tmr

abbrev pub is_not_supported : Status → Bool
is_not_supported not_supported = true
is_not_supported _ = false

-- The errors of `boot_journal_get_tmr` that stand for a blank device.
abbrev pub is_blank_error : Status → Bool
is_blank_error state = true
is_blank_error not_found = true
is_blank_error _ = false

abbrev pub is_state : Status → Bool
is_state state = true
is_state _ = false

-- The comparison with both floors, given what the safe read of the eFuse counter brings.
unfoldable pub check_floors : ℕ → ℕ → Result ℕ → Status
check_floors svn persisted (ok epoch) =
    if leb persisted svn && leb epoch svn then ok_status else downgrade
check_floors svn persisted (err e) =
    if is_not_supported e then if leb persisted svn then ok_status else downgrade else verify
check_floors svn persisted stuck = verify

-- `boot_rollback_verify_svn`, given what the two reads of the eFuse counter bring
unfoldable pub verify_svn : Journal → Result ℕ → Result ℕ → ℕ → RollbackTarget → Status
verify_svn j first second svn target = elim (get_tmr j) [
  | ok tmr ↦ check_floors svn (persisted_svn target tmr) (read_counter_safe first second)
  | err e ↦ if is_blank_error e then check_floors svn 0 (read_counter_safe first second) else e
  | stuck ↦ verify
]

-- What `boot_rollback_evaluate_os` chooses; the last one is `boot_panic`.
pub data OsChoice : Type 0 where
  normal_os recovery_os local_rescue : OsChoice

-- `boot_rollback_evaluate_os`
unfoldable pub evaluate_os : ChipConfig → List ℕ → OsChoice
evaluate_os chip tmr =
    if leb (boot_failure_counter_of tmr) chip.max_retries
    then normal_os
    else if leb (recovery_failure_counter_of tmr) chip.max_recovery_retries
    then recovery_os
    else local_rescue

-- `boot_rollback_plan_chunk`, with room for two effects
unfoldable pub plan_chunk : ChipConfig → ℕ → ℕ → ℕ → List FlashEffect
plan_chunk chip offset block_size crc_src =
    let source = (chip.staging_slot_addr + offset) % 2 ^ 32 in
    let target = (chip.app_slot_addr + offset) % 2 ^ 32 in
    record {
      op = eff_erase;
      src = 0;
      dst = target;
      len = block_size;
      post_crc = compute_erased_crc block_size;
    }
    ∷ (record { op = eff_copy; src = source; dst = target; len = block_size; post_crc = crc_src }
        ∷ [])

-- The size of a block before it is cut at the image's end, and after, padded for the driver.
unfoldable pub cut_block : ℕ → ℕ → ℕ → ℕ → ℕ
cut_block write_align offset block image_size =
    let left = image_size - offset in
    let rem = left % write_align in
    if ltb image_size (offset + block)
    then if ltb 0 write_align && not (rem == 0) then left + (write_align - rem) else left
    else block

module _ {S : Type 0} (hal : FlashHal S) (sectors : List Sector) (crypto : CryptoHal)
    (arena_len : ℕ) (sector_size : ℕ → Result ℕ) (caps : Option (SlotCaps S))
    (first second : Result ℕ) (chip : ChipConfig) where
  -- The comparison of a block in both slots, through the two halves of the arena. Each round moves on by
  -- eight bytes at least, as the arena has 512.
  unfoldable pub identical_loop : ℕ → S → ℕ → ℕ → ℕ → ℕ → Bool
  identical_loop zero s src dst block offset = not (ltb offset block)
  identical_loop (suc fuel) s src dst block offset =
      let half = arena_len / 2 / 8 * 8 in
      let step = if ltb half (block - offset) then half else block - offset in
      let round : Bool = elim (hal.read s ((dst + offset) % 2 ^ 32) step) [
        | ok old ↦ elim (hal.read s ((src + offset) % 2 ^ 32) step) [
          | ok new ↦ same_bytes old new && identical_loop fuel s src dst block (offset + step)
          | err e ↦ false
          | stuck ↦ false
        ]
        | err e ↦ false
        | stuck ↦ false
      ] in
      if ltb offset block then round else true

  -- A sector that the driver knows and that begins at the address.
  unfoldable pub aligned_sector : ℕ → Option ℕ
  aligned_sector addr = elim (sector_size addr) [
    | ok size ↦ if size == 0 then none else if addr % size == 0 then some size else none
    | err e ↦ none
    | stuck ↦ none
  ]

  -- The checkpoint, the plan and its execution for one block.
  unfoldable pub write_block : Journal → S → List ℕ → ℕ → ℕ → ℕ → Status × Journal × S
  write_block j s pending offset block crc_src =
      let entry = patch pending 52 (u32_bytes offset) in
      let (code, j1, s1) = append hal sectors crypto.hash j s entry in
      let whitelist : List AllowedRegion =
        record { base_addr = chip.app_slot_addr; max_size = chip.app_slot_size } ∷ [] in
      let done =
        execute hal sectors crypto arena_len sector_size caps first second whitelist j1 s1
          (plan_chunk chip offset block crc_src) in
      if is_ok code then done else (code, j1, s1)

  -- What is known of the block at an offset: the size of the sector it is written to, that of the block,
  -- the checksum of the source, and whether the target holds it already.
  unfoldable pub inspect_block : S → ℕ → ℕ → Result (ℕ × ℕ × ℕ × Bool)
  inspect_block s offset image_size =
      let src = (chip.staging_slot_addr + offset) % 2 ^ 32 in
      let dst = (chip.app_slot_addr + offset) % 2 ^ 32 in
      elim (aligned_sector dst) [
        | none ↦ err flash_hw
        | some dst_size ↦ elim (aligned_sector src) [
          | none ↦ err flash_hw
          | some src_size ↦
              let block = cut_block hal.write_align offset (max dst_size src_size) image_size in
              elim (flash_stream hal s src block arena_len) [
                | ok crc_src ↦ elim (flash_stream hal s dst block arena_len) [
                  | ok crc_dst ↦
                      let same = identical_loop block s src dst block 0 in
                      ok (dst_size, block, crc_src, crc_src == crc_dst && same)
                  | err e ↦ err e
                  | stuck ↦ stuck
                ]
                | err e ↦ err e
                | stuck ↦ stuck
              ]
        ]
      ]

  -- The loop of `boot_rollback_trigger_revert`, with its own guard on the rounds: it also gives the
  -- number of erases.
  unfoldable pub revert_loop : ℕ → Journal → S → List ℕ → ℕ → ℕ → ℕ → Status × ℕ × Journal × S
  revert_loop zero j s pending image_size offset erases =
      if ltb offset image_size then (flash_hw, erases, j, s) else (ok_status, erases, j, s)
  revert_loop (suc rounds) j s pending image_size offset erases =
      let round : Status × ℕ × Journal × S = elim (inspect_block s offset image_size) [
        | ok (dst_size, block, crc_src, same) ↦
            let next = (offset + block) % 2 ^ 32 in
            let skipped = revert_loop rounds j s pending image_size next erases in
            let (code, j', s') = write_block j s pending offset block crc_src in
            let count = max (block / dst_size) 1 in
            let later =
              revert_loop rounds j' s' pending image_size next ((erases + count) % 2 ^ 32) in
            if same then skipped else if is_ok code then later else (code, erases, j', s')
        | err e ↦ (e, erases, j, s)
        | stuck ↦ (timeout, erases, j, s)
      ] in
      if ltb offset image_size then round else (ok_status, erases, j, s)

  -- The telemetry and the entry that closes the revert.
  unfoldable pub finish_revert : ℕ → Journal → S → Status × Journal × S
  finish_revert erases j s =
      let counted : Status × Journal × S = elim (get_tmr j) [
        | ok tmr ↦
            update_tmr hal sectors crypto.hash first second j s
              (with_app_slot_erases tmr ((app_slot_erases_of tmr + erases) % 2 ^ 32))
        | err e ↦ (e, j, s)
        | stuck ↦ (timeout, j, s)
      ] in
      let (_, j1, s1) = if ltb 0 erases then counted else (ok_status, j, s) in
      append hal sectors crypto.hash j1 s1 (entry_of Intent.txn_rollback 0 0)

  -- The entry that a revert goes on with, its offset, and whether it is a new one.
  unfoldable pub resume_point : Option (List ℕ) → ℕ → List ℕ × ℕ × Bool
  resume_point none image_size = (entry_of Intent.txn_rollback_pending 0 0, 0, true)
  resume_point (some entry) image_size =
      let saved = delta_chunk_id_of entry in
      if intent_of entry == Intent.txn_rollback_pending
      then (entry, if ltb image_size saved then image_size else saved, false)
      else (entry_of Intent.txn_rollback_pending 0 0, 0, true)

  -- The header of the image in the staging slot: its size, if it can be reverted to. `magic` is
  -- `TOOB_MAGIC_HEADER`.
  unfoldable pub backup_size : S → Result ℕ
  backup_size s = elim (hal.read s chip.staging_slot_addr 32) [
    | ok bs ↦
        let magic = u32_at bs 0 in
        let size = u32_at bs 4 in
        if not (magic == 0x544F4F42 && ltb 0 size && not (size == 4294967295))
        then err not_found
        else if ltb chip.app_slot_size size
        then err flash_bounds
        else if ltb (4294967295 - chip.staging_slot_addr) size
            || ltb (4294967295 - chip.app_slot_addr) size
        then err flash_bounds
        else ok size
    | err e ↦ err e
    | stuck ↦ stuck
  ]

  -- The copy, from where it starts.
  unfoldable pub run_revert : Journal → S → List ℕ → ℕ → ℕ → Status × Journal × S
  run_revert j s pending image_size offset =
      let (code, erases, j', s') =
        revert_loop (chip.flash_total_size / 64 + 100) j s pending image_size offset 0 in
      if is_ok code then finish_revert erases j' s' else (code, j', s')

  -- `boot_rollback_trigger_revert`
  unfoldable pub trigger_revert : Journal → S → Status × Journal × S
  trigger_revert j s =
      let wanted : Wanted = record { want_accum = true; want_resume = false } in
      let (found_status, found) = reconstruct_txn hal sectors wanted j s in
      if ltb arena_len 512 then (invalid_arg, j, s) else elim (backup_size s) [
        | ok image_size ↦
            let (pending, offset, fresh) = resume_point found.main image_size in
            let (code, j1, s1) =
              if fresh then append hal sectors crypto.hash j s pending else (ok_status, j, s) in
            if not (is_ok found_status || is_state found_status)
            then (found_status, j, s)
            else if is_ok code
            then run_revert j1 s1 pending image_size offset
            else (code, j1, s1)
        | err e ↦ (e, j, s)
        | stuck ↦ (timeout, j, s)
      ]
