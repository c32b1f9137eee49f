-- ===== src/Journal.antt =====
-- toobloader/core/boot_journal.c: the write-ahead log over a ring of flash sectors.
mod Tests
pub mod Intent
pub mod Wire
pub mod Reconstruct
pub mod Append
pub mod Sequence
pub mod Vote
pub mod Counter
pub mod BestSector
pub mod MainIntent
pub mod Appended
pub mod Frontier
pub mod Hidden
pub mod Bytes
pub mod Sealed
pub mod Migrate
pub mod Fields
pub mod Samples
mod InitTests
pub mod Outcome
pub mod Patched
pub mod Init
pub mod Started
pub mod UpdateTmr
pub mod Updated
use toob_loader.Common.{
  ℕ, zero, suc, ◌+◌, ◌-◌, ◌*◌, ◌%◌, ◌^◌, ◌≡◌, refl, Bool, true, false, not, ◌&&◌, ◌||◌,
}
use toob_loader.Common.{
  ltb, leb, ◌==◌, if◌then◌else◌, List, [], ◌∷◌, ◌++◌, length, take, drop, get_or, replicate,
}
use toob_loader.Common.{Option, none, some}
use toob_loader.Status.{Status, ok_status, Result, ok, err, stuck, is_ok, invalid_arg, state}
use toob_loader.Status.{flash_hw, counter_exhausted}
use toob_loader.Hal.{FlashHal}
use Wire.{
  entry_size, header_size, classify_entry, EntryState, erased, valid, corrupt, is_fully_erased,
}
use Wire.{verify_header_crc, sequence_id_of, erase_count_of, tmr_of, sector_magic_of, magic_legacy}
use Wire.{header_bytes, seal, intent_of, delta_chunk_id_of, offset_of, is_security_bearing}
use Wire

-- `is_newer_sequence` of boot_ct_utils.h
unfoldable pub is_newer_sequence : ℕ → ℕ → Bool
is_newer_sequence new old =
    if new == old
    then false
    else (ltb old new && leb (new - old) (2 ^ 31)) || (ltb new old && ltb (2 ^ 31) (old - new))

-- `constant_time_memcmp_glitch_safe(…) == BOOT_OK` on two buffers of one length that is not 0
unfoldable pub same_bytes : List ℕ → List ℕ → Bool
same_bytes [] [] = true
same_bytes (x ∷ xs) (y ∷ ys) = x == y && same_bytes xs ys
same_bytes _ _ = false

-- `tmr_majority_vote_idx`, on one, two or three candidates
unfoldable pub majority_vote_idx : List (List ℕ) → ℕ
majority_vote_idx (a ∷ (b ∷ [])) = 0
majority_vote_idx (a ∷ (b ∷ (c ∷ _))) =
    if same_bytes a b then 0 else if same_bytes a c then 0 else if same_bytes b c then 1 else 0
majority_vote_idx _ = 0

-- `wal_sector_addrs` and `wal_sector_sizes`
pub record Sector : Type 0 where
  pub addr : ℕ
  pub size : ℕ

-- The static variables of the module: `active_wal_index`, `current_active_header`,
-- `cached_write_offset`, `journal_key` with `journal_key_valid`, and `wal_initialized`.
pub record Journal : Type 0 where
  pub active_index : ℕ
  pub sequence_id : ℕ
  pub erase_count : ℕ
  pub tmr : List ℕ
  pub write_offset : ℕ
  pub key : Option (List ℕ)
  pub initialized : Bool

abbrev pub no_sector : Sector
no_sector = record { addr = 0; size = 0 }

-- Everything below is over a flash driver, the sectors of the log and the state of the hardware.
module _ {S : Type 0} (hal : FlashHal S) (sectors : List Sector) where
  -- `read_header`: the header's bytes, if they can be read and their CRC holds
  unfoldable pub read_header : S → Sector → Option (List ℕ)
  read_header s sec = elim (hal.read s sec.addr header_size) [
    | ok bs ↦ if verify_header_crc bs then some bs else none
    | err e ↦ none
    | stuck ↦ none
  ]

  unfoldable pub find_from : S → List Sector → ℕ → ℕ → Option (ℕ × List ℕ)
  unfolding read_header
  find_from s [] i seq = none
  find_from s (sec ∷ secs) i seq =
      let rest = find_from s secs (i + 1) seq in
      elim (read_header s sec) [
        | none ↦ rest
        | some bs ↦ if sequence_id_of bs == seq then some (i, bs) else rest
      ]

  -- `find_sector_by_seq`: the index and the header of the first sector that holds `seq`
  unfoldable pub find_sector_by_seq : S → ℕ → Option (ℕ × List ℕ)
  unfolding find_from
  find_sector_by_seq s seq = find_from s sectors 0 seq

  -- The reads of `smart_erase_sector`, 64 bytes each: whether the sector has to be erased.
  unfoldable pub needs_erase : ℕ → S → ℕ → ℕ → Bool
  needs_erase zero s addr left = true
  needs_erase (suc fuel) s addr left =
      let read_len = if ltb 64 left then 64 else left in
      let dirty : Bool = elim (hal.read s addr read_len) [
        | ok bs ↦ not (is_fully_erased bs hal.erased_value)
        | err e ↦ true
        | stuck ↦ true
      ] in
      let later = needs_erase fuel s ((addr + read_len) % 2 ^ 32) (left - read_len) in
      if left == 0 then false else dirty || later

  -- `smart_erase_sector`: nothing is erased that is blank already
  unfoldable pub smart_erase_sector : S → Sector → Status × S
  unfolding needs_erase
  smart_erase_sector s sec =
      if needs_erase (sec.size + 1) s sec.addr sec.size
      then hal.erase_sector s sec.addr
      else (ok_status, s)

  -- The erase count that `rotate_to_sector` goes on from.
  unfoldable pub previous_erases : Option (List ℕ) → ℕ
  previous_erases none = 0
  previous_erases (some bs) = erase_count_of bs

  -- `rotate_to_sector`: the status, the new erase count and the hardware afterwards
  unfoldable pub rotate_to_sector : S → ℕ → ℕ → List ℕ → Status × ℕ × S
  unfolding read_header smart_erase_sector previous_erases
  rotate_to_sector s idx seq tmr =
      let sec = get_or sectors idx no_sector in
      let count = (previous_erases (read_header s sec) + 1) % 2 ^ 32 in
      let (erase_status, s1) = smart_erase_sector s sec in
      let (write_status, s2) = hal.write s1 sec.addr (header_bytes seq count tmr) in
      if is_ok erase_status then (write_status, count, s2) else (erase_status, 0, s1)

  unfoldable pub is_excluded : List ℕ → ℕ → Bool
  is_excluded [] i = false
  is_excluded (x ∷ xs) i = i == x || is_excluded xs i

  -- The loop of `get_best_wear_leveling_sector`: the best index so far with its erase count.
  unfoldable pub best_loop : S → List Sector → ℕ → ℕ → List ℕ → ℕ → ℕ → ℕ
  unfolding read_header is_excluded
  best_loop s [] i highest_seq exclude best_idx min_erase =
      if best_idx == 0xFFFFFFFF then 0 else best_idx
  best_loop s (sec ∷ secs) i highest_seq exclude best_idx min_erase =
      let skipped = best_loop s secs (i + 1) highest_seq exclude best_idx min_erase in
      elim (read_header s sec) [
        | none ↦ if is_excluded exclude i then skipped else i
        | some bs ↦
            let taken = best_loop s secs (i + 1) highest_seq exclude i (erase_count_of bs) in
            if is_excluded exclude i
            then skipped
            else if ltb ((highest_seq + 2 ^ 32 - sequence_id_of bs) % 2 ^ 32) 4
            then skipped
            else if ltb (erase_count_of bs) min_erase
            then taken
            else skipped
      ]

  -- `get_best_wear_leveling_sector`
  unfoldable pub best_sector : S → ℕ → List ℕ → ℕ
  unfolding best_loop
  best_sector s highest_seq exclude =
      best_loop s sectors 0 highest_seq exclude 0xFFFFFFFF 0xFFFFFFFF

  -- The loop of `scan_for_frontier_linear`, which takes as many rounds as entries fit. The `break`
  -- for an entry that is not valid stands inside `BOOT_SECURE_REQUIRE`, a `do … while (0)`: it only
  -- leaves that, and the scan goes on.
  unfoldable pub frontier_loop : ℕ → S → ℕ → ℕ → ℕ → ℕ
  frontier_loop zero s addr size offset = offset
  frontier_loop (suc fuel) s addr size offset =
      let later = frontier_loop fuel s addr size (offset + entry_size) in
      if not (leb (offset + entry_size) size)
      then offset
      else elim (hal.read s ((addr + offset) % 2 ^ 32) entry_size) [
        | ok bs ↦ elim (classify_entry bs hal.erased_value) [
          | valid ↦ later
          | erased ↦ offset
          | corrupt ↦ later
        ]
        | err e ↦ offset
        | stuck ↦ offset
      ]

  -- `scan_for_frontier_linear`
  unfoldable pub scan_for_frontier : S → Sector → ℕ
  unfolding frontier_loop
  scan_for_frontier s sec = frontier_loop sec.size s sec.addr sec.size header_size
