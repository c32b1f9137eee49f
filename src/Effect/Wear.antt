-- ===== src/Effect/Wear.antt =====
-- What `boot_effect_admit_or_defer` guarantees of the wear of the application slot.
use toob_loader.Common.{
  ℕ, ◌+◌, ◌-◌, ◌/◌, ◌%◌, ◌^◌, ◌<◌, ◌≤◌, ◌&&◌, leb, ltb, All, ap, ◌∙◌, Bool, true, false, Bool-cases,
  arith,
}
use toob_loader.Common.{◌≡◌, refl, inl, inr, if◌then◌else◌, ◌==◌, List, [], ◌∷◌}
use toob_loader.Status.{ok_status}
use toob_loader.Hal.{FlashHal}
use toob_loader.Journal.Fields.{app_slot_erases_of}
use toob_loader.Effect.Admit.{
  Component, Load, Slot, is_in_slot, num_sectors, swap_load, add_component, add_components,
}
use toob_loader.Effect.Admit.{is_worn, admit_or_defer}

-- How many sectors a number of bytes takes up, without a bound on the numbers.
abbrev pub sectors_of : ℕ → ℕ → ℕ
sectors_of size sector_size = (size + sector_size - 1) / sector_size

-- A slot holds an address, without a bound on the numbers.
abbrev pub sectors_at : Slot → ℕ → Component → ℕ
sectors_at slot sector_size c =
    if leb slot.addr c.target_addr && ltb c.target_addr (slot.addr + slot.size)
    then sectors_of c.image_size sector_size
    else 0

-- The sectors of the components whose target lies in a slot.
abbrev pub sectors_in : Slot → ℕ → List Component → ℕ
sectors_in slot sector_size [] = 0
sectors_in slot sector_size (c ∷ cs) =
    sectors_at slot sector_size c + sectors_in slot sector_size cs

num_sectors_lem :
    (size sector_size : ℕ)
    → size + sector_size ≤ 2 ^ 32
    → num_sectors size sector_size ≡ sectors_of size sector_size
unfolding num_sectors
num_sectors_lem size sector_size h = ap (λ n. n / sector_size) (small (size + sector_size) h)
  where
    small : (n : ℕ) → n ≤ 2 ^ 32 → (n - 1) % 2 ^ 32 ≡ n - 1
    small n le = omega arith

in_slot-sectors_at :
    (slot : Slot) (sector_size : ℕ) (c : Component)
    → slot.addr + slot.size < 2 ^ 32
    → c.image_size + sector_size ≤ 2 ^ 32
    → (if is_in_slot slot c.target_addr then num_sectors c.image_size sector_size else 0)
      ≡ sectors_at slot sector_size c
unfolding is_in_slot
in_slot-sectors_at slot sector_size c inside fits =
    let whole : (slot.addr + slot.size) % 2 ^ 32 ≡ slot.addr + slot.size = omega arith in
    rw (num_sectors_lem c.image_size sector_size fits, whole) refl

counted_in :
    (b : Bool) (erases n m rest : ℕ)
    → (if b then n else 0) ≡ m
    → erases + (m + rest) < 2 ^ 32
    → (if b then (erases + n) % 2 ^ 32 else erases) ≡ erases + m
counted_in true erases n m rest e h = omega arith
counted_in false erases n m rest e h = omega arith

add_component-app :
    (app staging : Slot) (sector_size : ℕ) (l : Load) (c : Component) (rest : ℕ)
    → app.addr + app.size < 2 ^ 32
    → c.image_size + sector_size ≤ 2 ^ 32
    → l.app_erases + (sectors_at app sector_size c + rest) < 2 ^ 32
    → (add_component app staging sector_size l c).app_erases
      ≡ l.app_erases + sectors_at app sector_size c
unfolding add_component
add_component-app app staging sector_size l c rest inside fits h =
    let n = if is_in_slot app c.target_addr then num_sectors c.image_size sector_size else 0 in
    let counted : n ≡ sectors_at app sector_size c =
      in_slot-sectors_at app sector_size c inside fits in
    counted_in (is_in_slot app c.target_addr) l.app_erases (num_sectors c.image_size sector_size) _
      rest counted h

add_components-app :
    (app staging : Slot) (sector_size : ℕ) (l : Load) (cs : List Component)
    → app.addr + app.size < 2 ^ 32
    → All (λ c. c.image_size + sector_size ≤ 2 ^ 32) cs
    → l.app_erases + sectors_in app sector_size cs < 2 ^ 32
    → (add_components app staging sector_size l cs).app_erases
      ≡ l.app_erases + sectors_in app sector_size cs
unfolding add_components
add_components-app app staging sector_size l [] inside all h = omega arith
add_components-app app staging sector_size l (c ∷ cs) inside (fits, all) h =
    let one =
      add_component-app app staging sector_size l c (sectors_in app sector_size cs) inside fits h in
    let later =
      add_components-app app staging sector_size (add_component app staging sector_size l c) cs
        inside all (omega arith) in
    omega arith

is_worn-false :
    {S : Type 0} (hal : FlashHal S) (tmr : List ℕ) (l : Load)
    → 0 < hal.max_erase_cycles
    → is_worn hal tmr l ≡ false
    → (app_slot_erases_of tmr + l.app_erases) % 2 ^ 32 < hal.max_erase_cycles
unfolding is_worn
is_worn-false hal tmr l positive h = ground arith

swap_load-app :
    (swap : Bool) (size sector_size : ℕ)
    → (swap_load swap size sector_size).app_erases
      ≡ (if swap then num_sectors size sector_size else 0)
unfolding swap_load
swap_load-app true size sector_size = refl
swap_load-app false size sector_size = refl

admit-unworn :
    {S : Type 0} (hal : FlashHal S) (app staging : Slot) (s : S) (tmr : List ℕ) (size : ℕ)
    (cs : List Component) (swap : Bool) (sector_size : ℕ)
    → (if hal.max_sector_size == 0 then 4096 else hal.max_sector_size) ≡ sector_size
    → admit_or_defer hal app staging s tmr size cs swap ≡ ok_status
    → is_worn hal tmr (add_components app staging sector_size (swap_load swap size sector_size) cs)
      ≡ false
unfolding admit_or_defer
admit-unworn hal app staging s tmr size cs swap sector_size e h =
    elim (Bool-cases (
      is_worn hal tmr
        (add_components app staging sector_size (swap_load swap size sector_size) cs))) [
          | inl b ↦ absurd (cc (rw (e, b) at h))
          | inr b ↦ b
        ]

-- An admitted update leaves the application slot within its budget of erases: if the driver has a
-- budget, the slot ends below 2^32, the image and the components end a sector below 2^32, and the sum
-- does not reach 2^32, then the counter, the sectors that the image takes up if it is swapped, and those
-- of all components in the slot, each rounded up, together stay below `max_erase_cycles`.
pub admit_or_defer-unworn :
    {S : Type 0} (hal : FlashHal S) (app staging : Slot) (s : S) (tmr : List ℕ) (size : ℕ)
    (cs : List Component) (swap : Bool) (sector_size : ℕ)
    → (if hal.max_sector_size == 0 then 4096 else hal.max_sector_size) ≡ sector_size
    → 0 < hal.max_erase_cycles
    → app.addr + app.size < 2 ^ 32
    → size + sector_size ≤ 2 ^ 32
    → All (λ c. c.image_size + sector_size ≤ 2 ^ 32) cs
    → app_slot_erases_of tmr
        + ((if swap then sectors_of size sector_size else 0) + sectors_in app sector_size cs)
      < 2 ^ 32
    → admit_or_defer hal app staging s tmr size cs swap ≡ ok_status
    → app_slot_erases_of tmr
        + ((if swap then sectors_of size sector_size else 0) + sectors_in app sector_size cs)
      < hal.max_erase_cycles
admit_or_defer-unworn hal app staging s tmr size cs swap sector_size e positive inside fits all
      bound h =
    let start =
      swap_load-app swap size sector_size
      ∙ ap (λ n. if swap then n else 0) (num_sectors_lem size sector_size fits) in
    let total =
      add_components-app app staging sector_size (swap_load swap size sector_size) cs inside all
        (omega arith) in
    let worn =
      is_worn-false hal tmr
        (add_components app staging sector_size (swap_load swap size sector_size) cs) positive
        (admit-unworn hal app staging s tmr size cs swap sector_size e h) in
    omega arith
