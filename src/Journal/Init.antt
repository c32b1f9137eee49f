-- ===== src/Journal/Init.antt =====
-- `boot_journal_init` and `boot_journal_get_tmr`.
use toob_loader.Common.{ℕ, ◌+◌, ◌-◌, ◌%◌, ◌^◌, Bool, true, false, not, ◌&&◌, ◌||◌}
use toob_loader.Common.{
  ltb, leb, ◌==◌, if◌then◌else◌, List, [], ◌∷◌, ◌++◌, length, get_or, replicate,
}
use toob_loader.Common.{Option, none, some}
use toob_loader.Status.{
  Status, ok_status, state, flash, flash_hw, invalid_arg, abi_mismatch, is_ok, Result, ok, err,
  stuck,
}
use toob_loader.Hal.{FlashHal, CryptoHal}
use toob_loader.Identity.{derive_journal_key}
use toob_loader.Journal.Wire.{header_size, entry_size, magic_legacy, sector_magic_of, header_bytes}
use toob_loader.Journal.Wire.{sequence_id_of, erase_count_of, tmr_of}
use toob_loader.Journal.{
  Journal, Sector, no_sector, is_newer_sequence, majority_vote_idx, read_header,
}
use toob_loader.Journal.{find_sector_by_seq, smart_erase_sector, scan_for_frontier}
use toob_loader.Journal.UpdateTmr.{update_tmr}
use toob_loader.Journal.Migrate.{
  migrate_v1_tmr, upgrade_tmr_payload, tmr_version, struct_version_of,
}
use toob_loader.Journal.Migrate.{tmr_v1_of, version_fields}

-- The start of the journal returns a status, or the device stops in `boot_terminal_halt`.
pub data Start (S : Type 0) : Type 0 where
  returned : Status × Journal × S → Start S
  halted : Status → Start S

-- The sizes of the sectors.
unfoldable pub is_layout_ok : List Sector → Bool
is_layout_ok [] = true
is_layout_ok (sec ∷ secs) = leb (header_size + entry_size) sec.size && is_layout_ok secs

-- `current_active_header.tmr_data` of a blank device
abbrev pub blank_tmr : List ℕ
blank_tmr = version_fields ++ replicate 108 0

-- A candidate for the vote: the payload of a header, that of the first version converted.
unfoldable pub candidate : ℕ → List ℕ → List ℕ
unfolding migrate_v1_tmr
candidate svn bs =
    if sector_magic_of bs == magic_legacy then migrate_v1_tmr svn (tmr_v1_of bs) else tmr_of bs

-- The payload of the newest header, and whether it was migrated.
unfoldable pub load_newest : ℕ → List ℕ → List ℕ × Bool
unfolding migrate_v1_tmr upgrade_tmr_payload
load_newest svn bs =
    if sector_magic_of bs == magic_legacy
    then (upgrade_tmr_payload svn (migrate_v1_tmr svn (tmr_v1_of bs)), true)
    else if ltb (struct_version_of (tmr_of bs)) tmr_version
    then (upgrade_tmr_payload svn (tmr_of bs), true)
    else (tmr_of bs, false)

-- The newer one of the header just read, number `i`, and the newest one so far.
unfoldable pub newer_header : ℕ → Option (List ℕ) → Option (ℕ × List ℕ) → Option (ℕ × List ℕ)
newer_header i none best = best
newer_header i (some bs) none = some (i, bs)
newer_header i (some bs) (some (idx, old)) =
    if is_newer_sequence (sequence_id_of bs) (sequence_id_of old)
    then some (i, bs)
    else some (idx, old)

module _ {S : Type 0} (hal : FlashHal S) (sectors : List Sector) (crypto : CryptoHal)
    (svn : ℕ) where
  -- The scan for the newest header: its index and its bytes.
  unfoldable pub newest_from : S → List Sector → ℕ → Option (ℕ × List ℕ) → Option (ℕ × List ℕ)
  unfolding newer_header
  newest_from s [] i best = best
  newest_from s (sec ∷ secs) i best =
      newest_from s secs (i + 1) (newer_header i (read_header hal sectors s sec) best)

  -- The other candidates for the vote, from the sectors before the newest one.
  unfoldable pub older_candidates : S → ℕ → ℕ → List ℕ → List (List ℕ)
  unfolding candidate
  older_candidates s seq erases [] = []
  older_candidates s seq erases (step ∷ steps) =
      let rest = older_candidates s seq erases steps in
      if leb seq step && leb erases (length sectors)
      then []
      else elim (find_sector_by_seq hal sectors s ((seq + 2 ^ 32 - step) % 2 ^ 32)) [
        | none ↦ []
        | some (idx, bs) ↦ candidate svn bs ∷ rest
      ]

  -- The payload that the vote chooses.
  unfoldable pub voted_tmr : S → List ℕ → List ℕ → List ℕ
  unfolding older_candidates
  voted_tmr s bs loaded =
      let candidates =
        loaded ∷ older_candidates s (sequence_id_of bs) (erase_count_of bs) (1 ∷ (2 ∷ [])) in
      get_or candidates (majority_vote_idx candidates) []

  -- `journal_key` and `journal_key_valid`
  unfoldable pub with_key : Journal → Journal
  with_key j = elim (derive_journal_key crypto) [
    | ok key ↦ record j { key = some key }
    | err e ↦ record j { key = none }
    | stuck ↦ record j { key = none }
  ]

  -- The end of `boot_journal_init`: the frontier, the migrated payload and the key.
  unfoldable pub start_log : Result ℕ → Result ℕ → Journal → S → Bool → Status × Journal × S
  unfolding with_key
  start_log first second j s migrated =
      let sec = get_or sectors j.active_index no_sector in
      let j1 = record j {
        write_offset = scan_for_frontier hal sectors s sec;
        initialized = true;
      } in
      let (status, j2, s2) = update_tmr hal sectors crypto.hash first second j1 s j1.tmr in
      if migrated
      then if is_ok status then (ok_status, with_key j2, s2) else (status, j2, s2)
      else (ok_status, with_key j1, s)

  -- A device whose log is blank.
  unfoldable pub start_blank : Result ℕ → Result ℕ → Journal → S → Status × Journal × S
  unfolding start_log
  start_blank first second j s =
      let sec = get_or sectors 0 no_sector in
      let j1 = record j { active_index = 0; sequence_id = 1; erase_count = 1; tmr = blank_tmr } in
      let (erase_status, s1) = smart_erase_sector hal sectors s sec in
      let (write_status, s2) = hal.write s1 sec.addr (header_bytes 1 1 blank_tmr) in
      if not (is_ok erase_status)
      then (erase_status, j1, s1)
      else if not (is_ok write_status)
      then (flash, j1, s2)
      else start_log first second j1 s2 false

  -- A device whose newest header is number `idx`.
  unfoldable pub start_from : Result ℕ → Result ℕ → Journal → S → ℕ → List ℕ → Start S
  unfolding load_newest voted_tmr start_log
  start_from first second j s idx bs =
      let (loaded, migrated) = load_newest svn bs in
      let j1 = record j {
        active_index = idx;
        sequence_id = sequence_id_of bs;
        erase_count = erase_count_of bs;
        tmr = voted_tmr s bs loaded;
      } in
      if ltb tmr_version (struct_version_of loaded)
      then halted abi_mismatch
      else returned (start_log first second j1 s migrated)

  -- `boot_journal_init`, given what the two reads of the eFuse counter bring. `MAX_WAL_SECTORS` is 8.
  unfoldable pub init : Result ℕ → Result ℕ → Journal → S → Start S
  unfolding is_layout_ok newest_from start_blank start_from
  init first second j s =
      if ltb (length sectors) 4 || ltb 8 (length sectors)
      then returned (invalid_arg, j, s)
      else if not (is_layout_ok sectors)
      then returned (flash_hw, j, s)
      else elim (newest_from s sectors 0 none) [
        | none ↦ returned (start_blank first second j s)
        | some (idx, bs) ↦ start_from first second j s idx bs
      ]

-- `boot_journal_get_tmr`
unfoldable pub get_tmr : Journal → Result (List ℕ)
get_tmr j = if j.initialized then ok j.tmr else err state
