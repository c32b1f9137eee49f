-- ===== src/Effect/Admit.antt =====
-- `boot_effect_admit_or_defer` of toobloader/core/boot_effect.c: whether the flash is fit for an
-- update, by its wear and by the supply voltage.
use toob_loader.Common.{ℕ, ◌+◌, ◌-◌, ◌*◌, ◌/◌, ◌%◌, ◌^◌, Bool, ◌&&◌, ◌||◌}
use toob_loader.Common.{ltb, leb, ◌==◌, if◌then◌else◌, List, [], ◌∷◌, none, some}
use toob_loader.Status.{Status, ok_status, counter_exhausted, defer, timeout, ok, err, stuck}
use toob_loader.Hal.{FlashHal}
use toob_loader.Journal.Fields.{app_slot_erases_of, staging_slot_erases_of, swap_buffer_erases_of}

-- `target_addr` and `image_size` of `boot_component_t`
pub record Component : Type 0 where
  pub target_addr : ℕ
  pub image_size : ℕ

-- `app_erases`, `staging_erases`, `scratch_erases` and `total_write_bytes`
pub record Load : Type 0 where
  pub app_erases : ℕ
  pub staging_erases : ℕ
  pub scratch_erases : ℕ
  pub write_bytes : ℕ

-- A slot: its address and its size.
pub record Slot : Type 0 where
  pub addr : ℕ
  pub size : ℕ

unfoldable pub is_in_slot : Slot → ℕ → Bool
is_in_slot slot target = leb slot.addr target && ltb target ((slot.addr + slot.size) % 2 ^ 32)

-- `num_sectors`
unfoldable pub num_sectors : ℕ → ℕ → ℕ
num_sectors size sector_size = ((size + sector_size - 1) % 2 ^ 32) / sector_size

-- The share of an image that is swapped.
unfoldable pub swap_load : Bool → ℕ → ℕ → Load
swap_load requires_swap image_size sector_size =
    let n = num_sectors image_size sector_size in
    if requires_swap
    then record {
      app_erases = n;
      staging_erases = n;
      scratch_erases = n;
      write_bytes = image_size * 3;
    }
    else record { app_erases = 0; staging_erases = 0; scratch_erases = 0; write_bytes = 0 }

-- The share of one component: only the slots' erases are counted, and the scratch area's are not.
unfoldable pub add_component : Slot → Slot → ℕ → Load → Component → Load
add_component app staging sector_size l c =
    let n = num_sectors c.image_size sector_size in
    let in_app = is_in_slot app c.target_addr in
    let in_staging = is_in_slot staging c.target_addr in
    record {
      app_erases = if in_app then (l.app_erases + n) % 2 ^ 32 else l.app_erases;
      staging_erases =
          if in_app
          then l.staging_erases
          else if in_staging
          then (l.staging_erases + n) % 2 ^ 32
          else l.staging_erases;
      scratch_erases = l.scratch_erases;
      write_bytes = (l.write_bytes + c.image_size) % 2 ^ 64;
    }

unfoldable pub add_components : Slot → Slot → ℕ → Load → List Component → Load
add_components app staging sector_size l [] = l
add_components app staging sector_size l (c ∷ cs) =
    add_components app staging sector_size (add_component app staging sector_size l c) cs

-- `supply_sufficient`
unfoldable pub supply_sufficient : ℕ → ℕ → ℕ → Bool
supply_sufficient mv worst_us margin =
    leb (2700 + margin + (if ltb 5000000 worst_us then 100 else 0)) mv

module _ {S : Type 0} (hal : FlashHal S) where
  -- The check of the budget of erases.
  unfoldable pub is_worn : List ℕ → Load → Bool
  is_worn tmr l =
      ltb 0 hal.max_erase_cycles
      && (leb hal.max_erase_cycles ((app_slot_erases_of tmr + l.app_erases) % 2 ^ 32)
          || (leb hal.max_erase_cycles ((staging_slot_erases_of tmr + l.staging_erases) % 2 ^ 32)
              || leb hal.max_erase_cycles
                  ((swap_buffer_erases_of tmr + l.scratch_erases) % 2 ^ 32)))

  -- `worst_us`, in 64 bits
  unfoldable pub worst_us : Load → ℕ
  worst_us l =
      let erases = (l.app_erases + l.staging_erases + l.scratch_erases) % 2 ^ 32 in
      let pages = ((l.write_bytes + hal.write_align - 1) % 2 ^ 64) / hal.write_align in
      let erasing = if ltb 0 hal.erase_time_us_max then erases * hal.erase_time_us_max else 0 in
      let writing =
        if ltb 0 hal.write_time_us_page && ltb 0 hal.write_align
        then pages * hal.write_time_us_page
        else 0 in
      (erasing + writing) % 2 ^ 64

  -- The check of the supply voltage; a voltage that cannot be read is no obstacle.
  unfoldable pub check_supply : S → Load → Status
  check_supply s l = elim hal.get_supply_mv [
    | none ↦ ok_status
    | some supply ↦ elim (supply s) [
      | ok mv ↦ if supply_sufficient mv (worst_us l) 100 then ok_status else defer
      | err e ↦ ok_status
      | stuck ↦ timeout
    ]
  ]

  -- `boot_effect_admit_or_defer`; a driver that names no size of sector has sectors of 4096 bytes.
  unfoldable pub admit_or_defer : Slot → Slot → S → List ℕ → ℕ → List Component → Bool → Status
  admit_or_defer app staging s tmr image_size components requires_swap =
      let sector_size = if hal.max_sector_size == 0 then 4096 else hal.max_sector_size in
      let l =
        add_components app staging sector_size (swap_load requires_swap image_size sector_size)
          components in
      if is_worn tmr l then counter_exhausted else check_supply s l
