-- ===== src/Rstore.antt =====
-- toobloader/core/boot_rstore.c: one record kept in several flash sectors, read by vote.
mod Tests
pub mod RoundTrip
pub mod Vote
pub mod Torn
use toob_loader.Common.{ℕ, zero, suc, ◌+◌, ◌-◌, ◌/◌, ◌%◌, ◌^◌, Bool, true, false, not, ◌&&◌, ◌||◌}
use toob_loader.Common.{ltb, leb, ◌==◌, if◌then◌else◌, List, [], ◌∷◌, ◌++◌, length, take, drop, map}
use toob_loader.Common.{Option, none, some}
use toob_loader.Status.{Status, ok_status, invalid_arg, not_found, is_ok, Result, ok, err, stuck}
use toob_loader.Hal.{FlashHal}
use toob_loader.Crc32
use toob_loader.Tbm1.Layout.{u32_at}
use toob_loader.Journal.{Sector, is_newer_sequence, same_bytes}
use toob_loader.Journal.Wire.{is_fully_erased, u32_bytes}

-- `boot_rstore_desc_t`
pub record Desc : Type 0 where
  pub slots : List Sector
  pub record_size : ℕ
  pub record_magic : ℕ

-- What `rstore_read_slot` fills in: the fields of the slot's header that are used, and the record.
pub record Copy : Type 0 where
  pub copy_seq : ℕ
  pub copy_erases : ℕ
  pub content : List ℕ

-- `sizeof(boot_rstore_slot_header_t)`
abbrev pub slot_header_size : ℕ
slot_header_size = 16

-- `RSTORE_MAX_SLOTS` and `RSTORE_MAX_RECORD_BYTES`
abbrev pub max_slots : ℕ
max_slots = 8

abbrev pub max_record_bytes : ℕ
max_record_bytes = 256

-- The bytes of a slot with its `header_crc32` at 0.
unfoldable pub crc_cleared : List ℕ → List ℕ
crc_cleared bs = take 12 bs ++ (u32_bytes 0 ++ drop 16 bs)

-- The checks of `rstore_read_slot` on the bytes read, and what it takes out of them.
unfoldable pub parse_slot : Desc → List ℕ → Option Copy
unfolding crc_cleared
parse_slot desc bs =
    if u32_at bs 0 == desc.record_magic && Crc32.compute (crc_cleared bs) == u32_at bs 12
    then some record {
      copy_seq = u32_at bs 4;
      copy_erases = u32_at bs 8;
      content = take desc.record_size (drop slot_header_size bs);
    }
    else none

-- The buffer that `rstore_write_slot` writes.
unfoldable pub slot_bytes : Desc → ℕ → ℕ → List ℕ → List ℕ
slot_bytes desc seq erases content =
    let head = u32_bytes desc.record_magic ++ (u32_bytes seq ++ u32_bytes erases) in
    head ++ (u32_bytes (Crc32.compute (head ++ (u32_bytes 0 ++ content))) ++ content)

-- The newest valid copy so far: its index and its sequence number.
unfoldable pub newest_loop : List (Option Copy) → ℕ → Option (ℕ × ℕ) → Option (ℕ × ℕ)
newest_loop [] i best = best
newest_loop (none ∷ slots) i best = newest_loop slots (i + 1) best
newest_loop (some c ∷ slots) i none = newest_loop slots (i + 1) (some (i, c.copy_seq))
newest_loop (some c ∷ slots) i (some (idx, seq)) =
    newest_loop slots (i + 1)
      (if is_newer_sequence c.copy_seq seq then some (i, c.copy_seq) else some (idx, seq))

-- How many valid copies there are.
unfoldable pub count_valid : List (Option Copy) → ℕ
count_valid [] = 0
count_valid (none ∷ slots) = count_valid slots
count_valid (some c ∷ slots) = suc (count_valid slots)

-- How many valid copies but `skip` hold `x`, where the first one of the list is number `i`.
unfoldable pub count_agree : List (Option Copy) → ℕ → ℕ → List ℕ → ℕ
count_agree [] i skip x = 0
count_agree (none ∷ slots) i skip x = count_agree slots (i + 1) skip x
count_agree (some c ∷ slots) i skip x =
    let rest = count_agree slots (i + 1) skip x in
    if i == skip then rest else if same_bytes x c.content then suc rest else rest

-- The first record that two valid copies but `skip` agree on.
unfoldable pub find_pair : List (Option Copy) → ℕ → ℕ → Option (List ℕ)
unfolding count_agree
find_pair [] i skip = none
find_pair (none ∷ slots) i skip = find_pair slots (i + 1) skip
find_pair (some c ∷ slots) i skip =
    let later = find_pair slots (i + 1) skip in
    if i == skip
    then later
    else if ltb 0 (count_agree slots (i + 1) skip c.content)
    then some c.content
    else later

-- The record of copy `i`.
unfoldable pub content_at : List (Option Copy) → ℕ → List ℕ
content_at [] i = []
content_at (none ∷ slots) zero = []
content_at (some c ∷ slots) zero = c.content
content_at (o ∷ slots) (suc i) = content_at slots i

-- Without a pair the newest record is trusted.
unfoldable pub pair_or : Option (List ℕ) → List ℕ → List ℕ
pair_or none x = x
pair_or (some y) x = y

-- The vote of `boot_rstore_read`, given the newest copy.
unfoldable pub vote : List (Option Copy) → ℕ → List ℕ
unfolding count_valid count_agree find_pair content_at pair_or
vote slots newest =
    let x = content_at slots newest in
    if not (leb 2 (count_valid slots))
    then x
    else if ltb 0 (count_agree slots 0 newest x)
    then x
    else pair_or (find_pair slots 0 newest) x

-- The record that `boot_rstore_read` puts out, with `newest_seq`.
unfoldable pub resolve : List (Option Copy) → Option (List ℕ × ℕ)
unfolding newest_loop vote
resolve slots = elim (newest_loop slots 0 none) [
  | none ↦ none
  | some (idx, seq) ↦ some (vote slots idx, seq)
]

-- The guards on the descriptor.
unfoldable pub is_desc_ok : Desc → Bool
is_desc_ok desc =
    leb 3 (length desc.slots)
    && leb (length desc.slots) max_slots
    && ltb 0 desc.record_size
    && leb desc.record_size max_record_bytes

-- Which erase count healing goes on from.
unfoldable pub heal_erases : Option Copy → ℕ
heal_erases none = 0
heal_erases (some c) = c.copy_erases

-- A slot that is not valid, or that holds another record.
unfoldable pub needs_heal : Option Copy → List ℕ → Bool
needs_heal none x = true
needs_heal (some c) x = not (same_bytes c.content x)

module _ {S : Type 0} (hal : FlashHal S) (desc : Desc) where
  -- `rstore_read_slot`
  unfoldable pub read_slot : S → Sector → Option Copy
  unfolding parse_slot
  read_slot s slot =
      if ltb (slot_header_size + max_record_bytes) (slot_header_size + desc.record_size)
      then none
      else elim (hal.read s slot.addr (slot_header_size + desc.record_size)) [
        | ok bs ↦ parse_slot desc bs
        | err e ↦ none
        | stuck ↦ none
      ]

  -- `rstore_write_slot`
  unfoldable pub write_slot : S → Sector → ℕ → ℕ → List ℕ → Status × S
  unfolding slot_bytes
  write_slot s slot seq erases content =
      if ltb (slot_header_size + max_record_bytes) (slot_header_size + desc.record_size)
      then (invalid_arg, s)
      else hal.write s slot.addr (slot_bytes desc seq erases content)

  -- The loop of `rstore_smart_erase`, with its own bound on the rounds.
  unfoldable pub is_dirty : ℕ → S → ℕ → ℕ → Bool
  is_dirty zero s addr left = false
  is_dirty (suc rounds) s addr left =
      let read_len = if ltb 64 left then 64 else left in
      let dirty : Bool = elim (hal.read s addr read_len) [
        | ok bs ↦ not (is_fully_erased bs hal.erased_value)
        | err e ↦ true
        | stuck ↦ true
      ] in
      let later = is_dirty rounds s (addr + read_len) (left - read_len) in
      if left == 0 then false else dirty || later

  -- `rstore_smart_erase`
  unfoldable pub rstore_smart_erase : S → Sector → Status × S
  unfolding is_dirty
  rstore_smart_erase s slot =
      if is_dirty (slot.size / 64 + 1) s slot.addr slot.size
      then hal.erase_sector s slot.addr
      else (ok_status, s)

  -- All slots, read in order.
  unfoldable pub read_slots : S → List Sector → List (Option Copy)
  unfolding read_slot
  read_slots s [] = []
  read_slots s (slot ∷ slots) = read_slot s slot ∷ read_slots s slots

  -- The healing of `boot_rstore_read`: the first slot that needs it, whatever comes of it.
  unfoldable pub heal : S → List Sector → List (Option Copy) → ℕ → List ℕ → S
  unfolding rstore_smart_erase write_slot needs_heal heal_erases
  heal s (slot ∷ slots) (o ∷ os) seq x =
      let (status, s1) = rstore_smart_erase s slot in
      let (_, s2) = write_slot s1 slot ((seq + 1) % 2 ^ 32) ((heal_erases o + 1) % 2 ^ 32) x in
      let later = heal s slots os seq x in
      if needs_heal o x then if is_ok status then s2 else s1 else later
  heal s _ _ seq x = s

  -- `boot_rstore_read`
  unfoldable pub rstore_read : S → Result (List ℕ) × S
  unfolding read_slots resolve heal is_desc_ok
  rstore_read s =
      let copies = read_slots s desc.slots in
      if not (is_desc_ok desc) then (err invalid_arg, s) else elim (resolve copies) [
        | none ↦ (err not_found, s)
        | some (x, seq) ↦ (ok x, heal s desc.slots copies seq x)
      ]

  -- `highest_seq` of `boot_rstore_write`, 0 without a valid copy
  unfoldable pub highest_seq : List (Option Copy) → ℕ
  unfolding newest_loop
  highest_seq copies = elim (newest_loop copies 0 none) [ none ↦ 0 | some (idx, seq) ↦ seq ]

  -- The loop of `boot_rstore_write`, from the last sequence number given out.
  unfoldable pub write_loop : S → List Sector → ℕ → List ℕ → Status × S
  unfolding read_slot rstore_smart_erase write_slot heal_erases
  write_loop s [] seq x = (ok_status, s)
  write_loop s (slot ∷ slots) seq x =
      let seq' = (seq + 1) % 2 ^ 32 in
      let erases = (heal_erases (read_slot s slot) + 1) % 2 ^ 32 in
      let (erase_status, s1) = rstore_smart_erase s slot in
      let (write_status, s2) = write_slot s1 slot seq' erases x in
      let later = write_loop s2 slots seq' x in
      if not (is_ok erase_status)
      then (erase_status, s1)
      else if not (is_ok write_status)
      then (write_status, s2)
      else later

  -- `boot_rstore_write`
  unfoldable pub rstore_write : S → List ℕ → Status × S
  unfolding read_slots highest_seq write_loop is_desc_ok
  rstore_write s x =
      if not (is_desc_ok desc)
      then (invalid_arg, s)
      else write_loop s desc.slots (highest_seq (read_slots s desc.slots)) x
