-- ===== src/Journal/UpdateTmr.antt =====
-- `boot_journal_update_tmr`: the new TMR payload goes to three sectors, one after the other.
use toob_loader.Common.{ℕ, zero, suc, ◌+◌, ◌-◌, ◌%◌, ◌^◌, Bool, false, not, ◌&&◌}
use toob_loader.Common.{ltb, leb, ◌==◌, if◌then◌else◌, List, [], ◌∷◌, ◌++◌, take, get_or}
use toob_loader.Common.{Option, none, some}
use toob_loader.Status.{
  Status, ok_status, state, verify, counter_exhausted, is_ok, Result, ok, err, stuck,
}
use toob_loader.Hal.{FlashHal}
use toob_loader.Journal.Wire.{header_size, magic_legacy, sector_magic_of, u32_bytes}
use toob_loader.Journal.{
  Journal, Sector, no_sector, same_bytes, read_header, best_sector, rotate_to_sector,
}
use toob_loader.Journal.Append.{with_chain_tag, chain_count_of, no_tag}

-- `boot_read_monotonic_counter_safe` of boot_ct_utils.h, given what the two reads bring.
unfoldable pub read_counter_safe : Result ℕ → Result ℕ → Result ℕ
read_counter_safe (ok a) (ok b) = if a == b then ok a else err verify
read_counter_safe (ok a) (err e) = err e
read_counter_safe (err e) _ = err e
read_counter_safe _ _ = stuck

abbrev pub epoch_of : Result ℕ → ℕ
epoch_of (ok a) = a
epoch_of (err e) = 0
epoch_of stuck = 0

-- The header in flash is still of the old format.
unfoldable pub has_legacy_magic : Option (List ℕ) → Bool
has_legacy_magic none = false
has_legacy_magic (some bs) = sector_magic_of bs == magic_legacy

module _ {S : Type 0} (hal : FlashHal S) (sectors : List Sector)
    (hash : List (List ℕ) → Result (List ℕ)) where
  -- The epoch anchor. `hash_chain_compute` clears its output first, and this is the tag inside the
  -- payload that it then hashes.
  unfoldable pub anchor : Option (List ℕ) → ℕ → List ℕ → List ℕ
  anchor none epoch tmr = tmr
  anchor (some key) epoch tmr =
      let cleared = with_chain_tag tmr no_tag in
      if ltb 0 (chain_count_of tmr)
      then elim (hash (key ∷ (cleared ∷ (u32_bytes epoch ∷ [])))) [
        | ok digest ↦ with_chain_tag tmr (take 16 digest)
        | err e ↦ cleared
        | stuck ↦ cleared
      ]
      else tmr

  -- The three rotations. A failure leaves `active_wal_index` at the last sector that was written.
  unfoldable pub quorum_loop : ℕ → Journal → S → ℕ → List ℕ → List ℕ → ℕ → Status × Journal × S
  quorum_loop zero j s seq exclude tmr count = (
    ok_status,
    record j { write_offset = header_size; sequence_id = seq; erase_count = count; tmr = tmr },
    s,
  )
  quorum_loop (suc steps) j s seq exclude tmr count =
      let idx = best_sector hal sectors s seq exclude in
      let seq' = (seq + 1) % 2 ^ 32 in
      let (status, count', s') = rotate_to_sector hal sectors s idx seq' tmr in
      let later =
        quorum_loop steps (record j { active_index = idx }) s' seq' (exclude ++ (idx ∷ [])) tmr
          count' in
      if is_ok status then later else (status, j, s')

  -- `boot_journal_update_tmr`, given what the two reads of the eFuse counter bring
  unfoldable pub update_tmr : Result ℕ → Result ℕ → Journal → S → List ℕ → Status × Journal × S
  unfolding anchor quorum_loop has_legacy_magic
  update_tmr first second j s new_tmr =
      let sec = get_or sectors j.active_index no_sector in
      let legacy = has_legacy_magic (read_header hal sectors s sec) in
      let tmr = anchor j.key (epoch_of (read_counter_safe first second)) new_tmr in
      if not j.initialized
      then (state, j, s)
      else if not legacy && same_bytes j.tmr new_tmr
      then (ok_status, j, s)
      else if ltb 0 hal.max_erase_cycles
          && leb ((hal.max_erase_cycles + 2 ^ 32 - 3) % 2 ^ 32) j.erase_count
      then (counter_exhausted, j, s)
      else quorum_loop 3 j s j.sequence_id (j.active_index ∷ []) tmr j.erase_count
