-- ===== src/Effect.antt =====
-- toobloader/core/boot_effect.c and `boot_swap_erase_safe` of toobloader/core/boot_swap.c: changes of
-- the flash that are planned as data, executed with a whitelist, and read back. The watchdog's kicks
-- and its suspension are not modelled.
mod Tests
pub mod Verified
pub mod Executed
pub mod Erased
pub mod Admit
pub mod Wear
use toob_loader.Common.{
  ℕ, zero, suc, ◌+◌, ◌-◌, ◌*◌, ◌/◌, ◌%◌, ◌^◌, Bool, true, false, not, ◌&&◌, ◌||◌,
}
use toob_loader.Common.{ltb, leb, ◌==◌, if◌then◌else◌, List, [], ◌∷◌, Option, none, some, bit_xor}
use toob_loader.Status.{
  Status, ok_status, invalid_arg, not_supported, flash_bounds, flash_hw, verify, timeout, is_ok,
}
use toob_loader.Status.{Result, ok, err, stuck}
use toob_loader.Hal.{
  FlashHal, CryptoHal, SlotCaps, ExecModel, fixed, relocatable, xip_remap, bank_swap,
}
use toob_loader.Crc32.{flash_stream, step_of, fill, crc_init, final_xor}
use toob_loader.Journal.{Journal, Sector}
use toob_loader.Journal.Wire.{is_fully_erased}
use toob_loader.Journal.UpdateTmr.{update_tmr}
use toob_loader.Journal.Init.{get_tmr}
use toob_loader.Journal.Migrate.{patch}

-- `effect_op_t`
pub data EffectOp : Type 0 where
  eff_erase eff_copy eff_flip : EffectOp

-- `flash_effect_t`
pub record FlashEffect : Type 0 where
  pub op : EffectOp
  pub src : ℕ
  pub dst : ℕ
  pub len : ℕ
  pub post_crc : ℕ

-- `boot_allowed_region_t`
pub record AllowedRegion : Type 0 where
  pub base_addr : ℕ
  pub max_size : ℕ

-- `is_buffer_within` of boot_ct_utils.h, with addresses of 64 bits
unfoldable pub is_buffer_within : ℕ → ℕ → ℕ → ℕ → Bool
is_buffer_within inner inner_len outer outer_len =
    if inner_len == 0 || outer_len == 0
    then false
    else if ltb (18446744073709551615 - inner) inner_len
    then false
    else if ltb (18446744073709551615 - outer) outer_len
    then false
    else leb outer inner && leb (inner + inner_len) (outer + outer_len)

-- The whitelist check of `boot_effect_execute`.
unfoldable pub is_allowed : List AllowedRegion → FlashEffect → Bool
unfolding is_buffer_within
is_allowed [] fx = false
is_allowed (r ∷ rs) fx = is_buffer_within fx.dst fx.len r.base_addr r.max_size || is_allowed rs fx

-- `boot_effect_compute_erased_crc`: 0xFF stands for a blank byte, whatever the flash says.
unfoldable pub compute_erased_crc : ℕ → ℕ
compute_erased_crc len = bit_xor (fill 4294967295 255 len) 4294967295

module _ {S : Type 0} (hal : FlashHal S) (arena_len : ℕ) where
  -- The loop of `stream_copy`. Each round moves on by a byte if the arena is not empty, so that the
  -- fuel `len` is enough; with an empty arena the code would not end.
  unfoldable pub copy_loop : ℕ → S → ℕ → ℕ → ℕ → ℕ → Status × S
  copy_loop zero s src dest len offset = if ltb offset len then (timeout, s) else (ok_status, s)
  copy_loop (suc fuel) s src dest len offset =
      let step = step_of arena_len len offset in
      let round : Status × S = elim (hal.read s ((src + offset) % 2 ^ 32) step) [
        | ok bs ↦
            let (code, s') = hal.write s ((dest + offset) % 2 ^ 32) bs in
            let later = copy_loop fuel s' src dest len (offset + step) in
            if is_ok code then later else (code, s')
        | err e ↦ (e, s)
        | stuck ↦ (timeout, s)
      ] in
      if ltb offset len then round else (ok_status, s)

  -- `stream_copy`
  unfoldable pub stream_copy : S → ℕ → ℕ → ℕ → Status × S
  stream_copy s src dest len = copy_loop len s src dest len 0

  -- The scan of one sector in `_boot_swap_erase_tracked`; a byte for each round again.
  unfoldable pub scan_dirty : ℕ → S → ℕ → ℕ → ℕ → Bool
  scan_dirty zero s addr size offset = ltb offset size
  scan_dirty (suc fuel) s addr size offset =
      let step = step_of arena_len size offset in
      let dirty : Bool = elim (hal.read s ((addr + offset) % 2 ^ 32) step) [
        | ok bs ↦ not (is_fully_erased bs hal.erased_value)
        | err e ↦ true
        | stuck ↦ true
      ] in
      let later = scan_dirty fuel s addr size (offset + step) in
      if ltb offset size then dirty || later else false

  -- `get_sector_size` of the driver.
  module _ (sector_size : ℕ → Result ℕ) where
    -- The loop of `_boot_swap_erase_tracked`, with its own guard on the rounds. It also counts the
    -- erases, which `boot_swap_erase_safe` does not ask for.
    unfoldable pub erase_loop : ℕ → S → ℕ → ℕ → Status × S
    erase_loop zero s addr end_addr = if ltb addr end_addr then (flash_hw, s) else (ok_status, s)
    erase_loop (suc rounds) s addr end_addr =
        let one : Status × S = elim (sector_size addr) [
          | ok size ↦
              let (code, s') =
                if scan_dirty size s addr size 0 then hal.erase_sector s addr else (ok_status, s) in
              let later = erase_loop rounds s' ((addr + size) % 2 ^ 32) end_addr in
              if size == 0 then (flash_hw, s) else if is_ok code then later else (code, s')
          | err e ↦ (flash_hw, s)
          | stuck ↦ (flash_hw, s)
        ] in
        if ltb addr end_addr then one else (ok_status, s)

    -- `boot_swap_erase_safe`
    unfoldable pub erase_safe : S → ℕ → ℕ → Status × S
    erase_safe s addr len =
        if len == 0
        then (ok_status, s)
        else if ltb (4294967295 - addr) len
        then (invalid_arg, s)
        else erase_loop 99999 s addr (addr + len)

module _ {S : Type 0} (hal : FlashHal S) (sectors : List Sector) (crypto : CryptoHal)
    (arena_len : ℕ) (sector_size : ℕ → Result ℕ) (caps : Option (SlotCaps S))
    (first second : Result ℕ) where
  -- The commit of `EFF_FLIP` for each execution model.
  unfoldable pub flip_slot : SlotCaps S → Journal → S → FlashEffect → Status × Journal × S
  flip_slot c j s fx = elim c.exec_model [
    | fixed ↦ (not_supported, j, s)
    | relocatable ↦ elim (get_tmr j) [
      | ok tmr ↦
          update_tmr hal sectors crypto.hash first second j s (patch tmr 84 ((fx.dst % 256) ∷ []))
      | err e ↦ (e, j, s)
      | stuck ↦ (timeout, j, s)
    ]
    | xip_remap ↦ elim c.xip_remap_commit [
      | none ↦ (not_supported, j, s)
      | some commit ↦ let (code, s') = commit s fx.src in (code, j, s')
    ]
    | bank_swap ↦ elim c.bank_flip [
      | none ↦ (not_supported, j, s)
      | some flip ↦ let (code, s') = flip s fx.dst in (code, j, s')
    ]
  ]

  -- The question which slot is active now.
  unfoldable pub check_active : SlotCaps S → S → FlashEffect → Status
  check_active c s fx = elim c.get_active_slot [
    | none ↦ ok_status
    | some active ↦ elim (active s) [
      | ok slot ↦ if slot == fx.dst then ok_status else verify
      | err e ↦ e
      | stuck ↦ timeout
    ]
  ]

  -- `EFF_FLIP`
  unfoldable pub flip : Journal → S → FlashEffect → Status × Journal × S
  flip j s fx = elim caps [
    | none ↦ (invalid_arg, j, s)
    | some c ↦
        let (code, j', s') = flip_slot c j s fx in
        if is_ok code then (check_active c s' fx, j', s') else (code, j', s')
  ]

  -- The idempotence check: what the effect is for has been reached.
  unfoldable pub is_reached : S → FlashEffect → Bool
  is_reached s fx = elim (flash_stream hal s fx.dst fx.len arena_len) [
    | ok crc ↦ crc == fx.post_crc
    | err e ↦ false
    | stuck ↦ false
  ]

  -- The read-back after an erase or a copy.
  unfoldable pub check_reached : S → FlashEffect → Status
  check_reached s fx = elim (flash_stream hal s fx.dst fx.len arena_len) [
    | ok crc ↦ if crc == fx.post_crc then ok_status else flash_hw
    | err e ↦ e
    | stuck ↦ timeout
  ]

  unfoldable pub read_back : Journal → Status × S → FlashEffect → Status × Journal × S
  read_back j (code, s) fx = (if is_ok code then check_reached s fx else code, j, s)

  -- The operation itself.
  unfoldable pub perform : Journal → S → FlashEffect → Status × Journal × S
  perform j s fx = elim fx.op [
    | eff_erase ↦ read_back j (erase_safe hal arena_len sector_size s fx.dst fx.len) fx
    | eff_copy ↦ read_back j (stream_copy hal arena_len s fx.src fx.dst fx.len) fx
    | eff_flip ↦ flip j s fx
  ]

  -- One round of `boot_effect_execute`.
  unfoldable pub execute_one : List AllowedRegion → Journal → S → FlashEffect → Status × Journal × S
  execute_one whitelist j s fx =
      if not (is_allowed whitelist fx)
      then (flash_bounds, j, s)
      else if is_reached s fx
      then (ok_status, j, s)
      else perform j s fx

  -- `boot_effect_execute`
  unfoldable pub execute :
      List AllowedRegion → Journal → S → List FlashEffect → Status × Journal × S
  execute whitelist j s [] = (ok_status, j, s)
  execute whitelist j s (fx ∷ fxs) =
      let (code, j', s') = execute_one whitelist j s fx in
      let later = execute whitelist j' s' fxs in if is_ok code then later else (code, j', s')
