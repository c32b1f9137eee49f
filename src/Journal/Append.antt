-- ===== src/Journal/Append.antt =====
-- `boot_journal_append`: an entry at the frontier, or in a fresh sector.
use toob_loader.Common.{ℕ, ◌+◌, ◌%◌, ◌^◌, not, ◌&&◌}
use toob_loader.Common.{ltb, leb, ◌==◌, if◌then◌else◌, List, [], ◌∷◌, ◌++◌, take, drop, get_or}
use toob_loader.Common.{Option, none, some}
use toob_loader.Status.{
  Status, ok_status, state, flash_hw, counter_exhausted, is_ok, Result, ok, err, stuck,
}
use toob_loader.Hal.{FlashHal}
use toob_loader.Tbm1.Layout.{u32_at}
use toob_loader.Journal.Wire.{
  entry_size, header_size, is_fully_erased, intent_of, is_security_bearing,
}
use toob_loader.Journal.Wire.{seal, u32_bytes}
use toob_loader.Journal.{Journal, Sector, no_sector, same_bytes, best_sector, rotate_to_sector}

-- `tmr.chain_tag`, 16 bytes, and `tmr.chain_entry_count` behind it
abbrev pub chain_tag_of : List ℕ → List ℕ
chain_tag_of tmr = take 16 (drop 56 tmr)

abbrev pub with_chain_tag : List ℕ → List ℕ → List ℕ
with_chain_tag tmr tag = take 56 tmr ++ (tag ++ drop 72 tmr)

abbrev pub chain_count_of : List ℕ → ℕ
chain_count_of tmr = u32_at tmr 72

abbrev pub with_chain_count : List ℕ → ℕ → List ℕ
with_chain_count tmr n = take 72 tmr ++ (u32_bytes n ++ drop 76 tmr)

-- The 16 zeroes that a tag is cleared to.
abbrev pub no_tag : List ℕ
no_tag =
    0 ∷ (0 ∷ (0 ∷ (0 ∷ (0 ∷ (0 ∷ (0 ∷ (0 ∷ (0 ∷ (0 ∷ (0 ∷ (0 ∷ (0 ∷ (0 ∷ (0 ∷ (0 ∷ [])))))))))))))))

-- What the entry at the frontier calls for: go on there, or rotate first.
pub data Frontier : Type 0 where
  go_on rotate : Frontier

-- The crypto driver's `hash_init`, `hash_update` on each segment and `hash_finish`.
module _ {S : Type 0} (hal : FlashHal S) (sectors : List Sector)
    (hash : List (List ℕ) → Result (List ℕ)) where
  -- `compute_chain_tag`: the digest of the segments, cut to 16 bytes
  unfoldable pub compute_chain_tag : List ℕ → List ℕ → List ℕ → Result (List ℕ)
  compute_chain_tag key entry prev_tag = elim (hash (key ∷ (take 60 entry ∷ (prev_tag ∷ [])))) [
    | ok digest ↦ ok (take 16 digest)
    | err e ↦ err e
    | stuck ↦ stuck
  ]

  -- The TMR in RAM after an entry that bears on security.
  unfoldable pub chain : Option (List ℕ) → List ℕ → List ℕ → List ℕ
  unfolding compute_chain_tag
  chain none entry tmr = tmr
  chain (some key) entry tmr =
      if is_security_bearing (intent_of entry)
      then elim (compute_chain_tag key entry (chain_tag_of tmr)) [
        | ok tag ↦ with_chain_count (with_chain_tag tmr tag) ((chain_count_of tmr + 1) % 2 ^ 32)
        | err e ↦ tmr
        | stuck ↦ tmr
      ]
      else tmr

  -- The check of what lies at the frontier.
  unfoldable pub check_frontier : Journal → S → Sector → Frontier
  check_frontier j s sec =
      if leb (j.write_offset + entry_size) sec.size
      then elim (hal.read s (sec.addr + j.write_offset) entry_size) [
        | ok bs ↦
            if is_fully_erased bs hal.erased_value && not (j.write_offset == 0)
            then go_on
            else rotate
        | err e ↦ rotate
        | stuck ↦ rotate
      ]
      else rotate

  -- The write of the entry at `target`, its read-back, and the chain. A failed read-back puts the
  -- frontier at `old_size`, the size of the sector that was active at the call.
  unfoldable pub write_entry : Journal → S → ℕ → ℕ → List ℕ → Status × Journal × S
  unfolding chain
  write_entry j s target old_size entry =
      let sec = get_or sectors j.active_index no_sector in
      let sealed = seal entry in
      let (status, s') = hal.write s (sec.addr + target) sealed in
      let failed : Status × Journal × S = (flash_hw, record j { write_offset = old_size }, s') in
      let done : Status × Journal × S = (
        ok_status,
        record j { write_offset = target + entry_size; tmr = chain j.key sealed j.tmr },
        s',
      ) in
      if not (is_ok status)
      then (status, j, s')
      else elim (hal.read s' (sec.addr + target) entry_size) [
        | ok bs ↦ if same_bytes sealed bs then done else failed
        | err e ↦ failed
        | stuck ↦ failed
      ]

  -- The rotation that `boot_journal_append` makes first where the frontier calls for it.
  unfoldable pub append_rotated : Journal → S → ℕ → List ℕ → Status × Journal × S
  unfolding write_entry
  append_rotated j s old_size entry =
      let new_idx = best_sector hal sectors s j.sequence_id (j.active_index ∷ []) in
      let new_seq = (j.sequence_id + 1) % 2 ^ 32 in
      let (status, count, s') = rotate_to_sector hal sectors s new_idx new_seq j.tmr in
      let j' = record j {
        active_index = new_idx;
        sequence_id = new_seq;
        erase_count = count;
        write_offset = header_size;
      } in
      if ltb 0 hal.max_erase_cycles && leb hal.max_erase_cycles j.erase_count
      then (counter_exhausted, j, s)
      else if not (is_ok status)
      then (status, j, s')
      else write_entry j' s' header_size old_size entry

  -- `boot_journal_append`
  unfoldable pub append : Journal → S → List ℕ → Status × Journal × S
  unfolding check_frontier append_rotated
  append j s entry =
      let sec = get_or sectors j.active_index no_sector in
      if not j.initialized then (state, j, s) else elim (check_frontier j s sec) [
        | go_on ↦ write_entry j s j.write_offset sec.size entry
        | rotate ↦ append_rotated j s sec.size entry
      ]
