-- ===== src/Rollback/Chunk.antt =====
-- One block of a revert: its inspection, its plan, and the plan executed behind a checkpoint.
use toob_loader.Common.{ℕ, ◌+◌, ◌%◌, ◌^◌, ◌≤◌, ◌<◌, ◌≡◌, ap, sym, ◌∙◌, arith, inl, inr, ◌≢◌}
use toob_loader.Common.{
  List, [], ◌∷◌, Option, Bool, true, false, Bool-cases, if◌then◌else◌, ◌⊎◌, refl,
}
use toob_loader.Status.{Status, ok_status, is_ok, Result, ok}
use toob_loader.Hal.{FlashHal, CryptoHal, SlotCaps, ReadErrorsFail}
use toob_loader.Crc32.{flash_stream}
use toob_loader.Journal.{Journal, Sector}
use toob_loader.Journal.Append.{append}
use toob_loader.Journal.Migrate.{patch}
use toob_loader.Journal.Wire.{u32_bytes}
use toob_loader.Effect.{
  FlashEffect, eff_erase, eff_copy, eff_flip, AllowedRegion, execute, compute_erased_crc,
}
use toob_loader.Effect.Executed.{execute-verified}
use toob_loader.Rollback.{ChipConfig, plan_chunk, inspect_block, write_block}

not_flip : eff_copy ≢ eff_flip
not_flip e = cc e

module _ {S : Type 0} (hal : FlashHal S) (fails : ReadErrorsFail hal) (sectors : List Sector)
    (crypto : CryptoHal) (arena_len : ℕ) (sector_size : ℕ → Result ℕ) (caps : Option (SlotCaps S))
    (first second : Result ℕ) (chip : ChipConfig) where
  -- A plan that was executed with `BOOT_OK` lies inside the application slot as a whole, and there its block
  -- has the checksum that the plan was made for.
  plan_chunk-executed :
      (j : Journal) (s : S) (offset block crc : ℕ) (j' : Journal) (s' : S)
      → chip.app_slot_addr + offset < 2 ^ 32
      → execute hal sectors crypto arena_len sector_size caps first second
          (record { base_addr = chip.app_slot_addr; max_size = chip.app_slot_size } ∷ [])
          j
          s
          (plan_chunk chip offset block crc)
        ≡ (ok_status, j', s')
      → (offset + block ≤ chip.app_slot_size)
        × (flash_stream hal s' (chip.app_slot_addr + offset) block arena_len ≡ ok crc)
  unfolding plan_chunk
  plan_chunk-executed j s offset block crc j' s' fits h =
      let target = (chip.app_slot_addr + offset) % 2 ^ 32 in
      let whole : target ≡ chip.app_slot_addr + offset = omega arith in
      let whitelist : List AllowedRegion =
        record { base_addr = chip.app_slot_addr; max_size = chip.app_slot_size } ∷ [] in
      let erase : FlashEffect = record {
        op = eff_erase;
        src = 0;
        dst = target;
        len = block;
        post_crc = compute_erased_crc block;
      } in
      let copy : FlashEffect = record {
        op = eff_copy;
        src = (chip.staging_slot_addr + offset) % 2 ^ 32;
        dst = target;
        len = block;
        post_crc = crc;
      } in
      let (inside, reached) =
        execute-verified hal fails sectors crypto arena_len sector_size caps first second whitelist
          j s (erase ∷ []) copy j' s' not_flip h in
      (
        elim inside.0 [
          | inl (low, high) ↦ omega (arith, whole, high)
          | inr nowhere ↦ absurd nowhere
        ],
        ap (λ a. flash_stream hal s' a block arena_len) (sym whole) ∙ reached,
      )

  -- The same of the plan behind its checkpoint.
  write_block_executed :
      (j : Journal) (s : S) (pending : List ℕ) (offset block crc : ℕ) (j' : Journal) (s' : S)
      → chip.app_slot_addr + offset < 2 ^ 32
      → write_block hal sectors crypto arena_len sector_size caps first second chip j s pending
          offset block crc
        ≡ (ok_status, j', s')
      → (offset + block ≤ chip.app_slot_size)
        × (flash_stream hal s' (chip.app_slot_addr + offset) block arena_len ≡ ok crc)
  unfolding write_block
  write_block_executed j s pending offset block crc j' s' fits h =
      let r = append hal sectors crypto.hash j s (patch pending 52 (u32_bytes offset)) in
      elim (Bool-cases (is_ok r.0)) [
        | inl good ↦
            plan_chunk-executed r.1 r.2 offset block crc j' s' fits (rw (write_block, good) at h)
        | inr bad ↦
            absurd
              (cc (bad, ap (λ (p : Status × Journal × S). is_ok p.0) (rw (write_block, bad) at h)))
      ]

  -- What the inspection of a block has read: the checksum of its source, and where it says that nothing
  -- is to be done, the same one of its target.
  inspect_block-checksums :
      (s : S) (offset image_size dst_size block crc : ℕ) (same : Bool)
      → inspect_block hal sectors crypto arena_len sector_size caps first second chip s offset
          image_size
        ≡ ok (dst_size, block, crc, same)
      → (flash_stream hal s ((chip.staging_slot_addr + offset) % 2 ^ 32) block arena_len ≡ ok crc)
        × (same ≡ true
            → flash_stream hal s ((chip.app_slot_addr + offset) % 2 ^ 32) block arena_len ≡ ok crc)
  unfolding inspect_block
  inspect_block-checksums s offset image_size dst_size block crc same h = grind arith

  -- Where the step of one block of a revert, which is nothing for a block that the inspection found in
  -- place already, returns `BOOT_OK`, the target has the checksum that the same block of the staging slot
  -- had when it was inspected, and what was written lies inside the application slot as a whole.
  pub inspect_block-write_block :
      (j : Journal) (s : S) (pending : List ℕ) (offset image_size dst_size block crc : ℕ)
      (same : Bool) (j' : Journal) (s' : S)
      → chip.app_slot_addr + offset < 2 ^ 32
      → chip.staging_slot_addr + offset < 2 ^ 32
      → inspect_block hal sectors crypto arena_len sector_size caps first second chip s offset
          image_size
        ≡ ok (dst_size, block, crc, same)
      → (if same
          then (ok_status, j, s)
          else write_block hal sectors crypto arena_len sector_size caps first second chip j s
              pending offset block crc)
        ≡ (ok_status, j', s')
      → ((same ≡ true) ⊎ (offset + block ≤ chip.app_slot_size))
        × (flash_stream hal s (chip.staging_slot_addr + offset) block arena_len ≡ ok crc)
        × (flash_stream hal s' (chip.app_slot_addr + offset) block arena_len ≡ ok crc)
  inspect_block-write_block j s pending offset image_size dst_size block crc true j' s' app staging
        inspected h =
      let (source, target) =
        inspect_block-checksums s offset image_size dst_size block crc true inspected in
      let whole_app : (chip.app_slot_addr + offset) % 2 ^ 32 ≡ chip.app_slot_addr + offset =
        omega arith in
      let whole_staging : (chip.staging_slot_addr + offset) % 2 ^ 32
          ≡ chip.staging_slot_addr + offset =
        omega arith in
      let kept : s ≡ s' = ap (λ (p : Status × Journal × S). p.2) h in
      (
        inl refl,
        ap (λ a. flash_stream hal s a block arena_len) (sym whole_staging) ∙ source,
        sym (ap (λ x. flash_stream hal x (chip.app_slot_addr + offset) block arena_len) kept)
            ∙ (ap (λ a. flash_stream hal s a block arena_len) (sym whole_app) ∙ target refl),
      )
  inspect_block-write_block j s pending offset image_size dst_size block crc false j' s' app staging
        inspected h =
      let (source, _) =
        inspect_block-checksums s offset image_size dst_size block crc false inspected in
      let whole_staging : (chip.staging_slot_addr + offset) % 2 ^ 32
          ≡ chip.staging_slot_addr + offset =
        omega arith in
      let (inside, target) = write_block_executed j s pending offset block crc j' s' app h in
      (
        inr inside,
        ap (λ a. flash_stream hal s a block arena_len) (sym whole_staging) ∙ source,
        target,
      )
