-- ===== src/Journal/Appended.antt =====
-- What a successful `boot_journal_append` leaves in flash.
use toob_loader.Common.{
  refl, ℕ, ◌+◌, ◌-◌, ◌≡◌, ◌∙◌, ap, sym, subst, Bool, true, false, not, inl, inr,
}
use toob_loader.Common.{List, get_or, Bool-cases, arith, if◌then◌else◌, ltb, leb, ◌&&◌}
use toob_loader.Status.{Status, ok_status, is_ok, Result, ok, Result-cases}
use toob_loader.Hal.{FlashHal}
use toob_loader.Journal.Wire.{seal, entry_size, header_size}
use toob_loader.Journal.{Journal, Sector, no_sector, same_bytes}
use toob_loader.Journal.Append.{Frontier, go_on, rotate, check_frontier}
use toob_loader.Journal.Append.{write_entry, append_rotated, append}
use toob_loader.Journal.Vote.{same_bytes→≡}

module _ {S : Type 0} (hal : FlashHal S) (sectors : List Sector)
    (hash : List (List ℕ) → Result (List ℕ)) where
  back : (target : ℕ) → target + entry_size - entry_size ≡ target
  back target = omega arith

  -- The sealed entry reads back from the place in front of the frontier.
  abbrev IsWritten : List ℕ → Status × Journal × S → Type 0
  IsWritten entry (status, j, s) =
      status ≡ ok_status
      → hal.read s ((get_or sectors j.active_index no_sector).addr + (j.write_offset - entry_size))
          entry_size
        ≡ ok (seal entry)

  write_entry-IsWritten :
      (j : Journal) (s : S) (target old_size : ℕ) (entry : List ℕ)
      → IsWritten entry (write_entry hal sectors hash j s target old_size entry)
  unfolding write_entry
  write_entry-IsWritten j s target old_size entry =
      let at = (get_or sectors j.active_index no_sector).addr + target in
      let w = hal.write s at (seal entry) in
      elim (Bool-cases (is_ok w.0)) [
        | inr e ↦ rw e (λ h. cc (e, h))
        | inl e ↦ rw e (elim (Result-cases (hal.read w.1 at entry_size)) [
          | inl (bs, r) ↦ rw r (elim (Bool-cases (same_bytes (seal entry) bs)) [
            | inl same ↦ rw same (λ h.
                subst
                  (λ a.
                    hal.read w.1 ((get_or sectors j.active_index no_sector).addr + a) entry_size
                    ≡ ok (seal entry))
                  (sym (back target)) (r ∙ ap ok (sym (same_bytes→≡ (seal entry) bs same))))
            | inr differ ↦ rw differ (λ h. cc)
          ])
          | inr (inl (f, r)) ↦ rw r (λ h. cc)
          | inr (inr r) ↦ rw r (λ h. cc)
        ])
      ]

  if_IsWritten :
      (entry : List ℕ) (b : Bool) (x y : Status × Journal × S)
      → IsWritten entry x
      → IsWritten entry y
      → IsWritten entry (if b then x else y)
  if_IsWritten entry true x y hx hy = hx
  if_IsWritten entry false x y hx hy = hy

  if_failed :
      (entry : List ℕ) (status : Status) (j : Journal) (s : S) (y : Status × Journal × S)
      → IsWritten entry y
      → IsWritten entry (if not (is_ok status) then (status, j, s) else y)
  if_failed entry status j s y hy = elim (Bool-cases (is_ok status)) [
    | inl e ↦ rw e hy
    | inr e ↦ rw e (λ h. cc (e, h))
  ]

  append_rotated-IsWritten :
      (j : Journal) (s : S) (old_size : ℕ) (entry : List ℕ)
      → IsWritten entry (append_rotated hal sectors hash j s old_size entry)
  unfolding append_rotated
  append_rotated-IsWritten j s old_size entry =
      if_IsWritten entry (ltb 0 hal.max_erase_cycles && leb hal.max_erase_cycles j.erase_count) _ _
        (λ h. cc) (if_failed entry _ j _ _ (write_entry-IsWritten _ _ header_size old_size entry))

  append-IsWritten :
      (j : Journal) (s : S) (entry : List ℕ) → IsWritten entry (append hal sectors hash j s entry)
  unfolding append
  append-IsWritten j s entry =
      if_IsWritten entry (not j.initialized) _ _ (λ h. cc)
        (by_frontier
          (check_frontier hal sectors hash j s (get_or sectors j.active_index no_sector)))
    where
      by_frontier :
          (f : Frontier)
          → IsWritten entry (elim f [
            | go_on ↦
                write_entry hal sectors hash j s j.write_offset
                  (get_or sectors j.active_index no_sector).size
                  entry
            | rotate ↦
                append_rotated hal sectors hash j s
                  (get_or sectors j.active_index no_sector).size
                  entry
          ])
      by_frontier go_on = write_entry-IsWritten j s j.write_offset _ entry
      by_frontier rotate = append_rotated-IsWritten j s _ entry

  -- Whenever `boot_journal_append` returns `BOOT_OK`, with a rotation before the entry or without
  -- one, a read of the 64 bytes in front of the new frontier of the active sector gives the entry,
  -- sealed with its magic number and its CRC.
  pub append-seal :
      (j : Journal) (s : S) (entry : List ℕ) (j' : Journal) (s' : S)
      → append hal sectors hash j s entry ≡ (ok_status, j', s')
      → hal.read s'
          ((get_or sectors j'.active_index no_sector).addr + (j'.write_offset - entry_size))
          entry_size
        ≡ ok (seal entry)
  append-seal j s entry j' s' e = subst (IsWritten entry) e (append-IsWritten j s entry) refl
