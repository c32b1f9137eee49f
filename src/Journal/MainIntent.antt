-- ===== src/Journal/MainIntent.antt =====
-- What `boot_journal_reconstruct_txn` can report as the state of the main transaction.
use toob_loader.Common.{◌⊎◌, refl}
use toob_loader.Common.{ℕ, zero, suc, ◌+◌, ◌-◌, ◌≡◌, Bool, true, false, inl, inr}
use toob_loader.Common.{
  List, length, Option, none, some, ltb, leb, ◌==◌, Bool-cases, if◌then◌else◌, not, ◌&&◌, get_or,
}
use toob_loader.Common.{Option-cases, some_inj, subst}
use toob_loader.Status.{Status, Result-cases}
use toob_loader.Hal.{FlashHal}
use toob_loader.Journal.Intent
use toob_loader.Journal.Wire.{
  EntryState-cases, valid, classify_entry, intent_of, entry_size, header_size,
}
use toob_loader.Journal.{Journal, Sector, find_sector_by_seq, scan_for_frontier, no_sector}
use toob_loader.Journal.Reconstruct.{
  zero_entry, Found, Wanted, is_side_band, note_entry, is_complete,
}
use toob_loader.Journal.Reconstruct.{
  scan_back, sectors_back, reconstruct_txn, first_of_two, is_some,
}

module _ {S : Type 0} (hal : FlashHal S) where
  -- A valid entry, or the zeroed one, whose intent is one of the main transaction.
  pub record IsMainEntry (bs : List ℕ) : Type 0 where
    pub valid_or_zeroed : (classify_entry bs hal.erased_value ≡ valid) ⊎ (bs ≡ zero_entry)
    pub not_side_band : is_side_band (intent_of bs) ≡ false
    pub not_accum : (intent_of bs == Intent.net_search_accum) ≡ false
    pub not_checkpoint : (intent_of bs == Intent.download_checkpoint) ≡ false

  abbrev pub IsMain : Found → Type 0
  IsMain found = (bs : List ℕ) → found.main ≡ some bs → IsMainEntry bs

  first_of_two-main :
      (o : Option (List ℕ)) (bs : List ℕ)
      → ((bs' : List ℕ) → o ≡ some bs' → IsMainEntry bs')
      → IsMainEntry bs
      → (bs' : List ℕ) → first_of_two o bs ≡ some bs'
      → IsMainEntry bs'
  first_of_two-main none bs old new bs' e = subst IsMainEntry (some_inj e) new
  first_of_two-main (some b) bs old new bs' e = old bs' e

  if_IsMain : (b : Bool) (x y : Found) → IsMain x → IsMain y → IsMain (if b then x else y)
  if_IsMain true x y hx hy = hx
  if_IsMain false x y hx hy = hy

  if-IsMain :
      (b : Bool) (x y : Status × Found) → IsMain x.1 → IsMain y.1 → IsMain (if b then x else y).1
  if-IsMain true x y hx hy = hx
  if-IsMain false x y hx hy = hy

  note_entry-IsMain :
      (w : Wanted) (found : Found) (bs : List ℕ)
      → (classify_entry bs hal.erased_value ≡ valid) ⊎ (bs ≡ zero_entry)
      → IsMain found
      → IsMain (note_entry w found bs)
  unfolding note_entry
  note_entry-IsMain w found bs v h = elim (Bool-cases (intent_of bs == Intent.net_search_accum)) [
    | inl e ↦ rw e (if_IsMain w.want_accum _ _ h h)
    | inr e ↦ rw e (elim (Bool-cases (intent_of bs == Intent.download_checkpoint)) [
      | inl e' ↦ rw e' (if_IsMain w.want_resume _ _ h h)
      | inr e' ↦ rw e' (elim (Bool-cases (is_side_band (intent_of bs))) [
        | inl e2 ↦ rw e2 h
        | inr e2 ↦ rw e2 (
            first_of_two-main found.main bs h record {
              valid_or_zeroed = v;
              not_side_band = e2;
              not_accum = e;
              not_checkpoint = e';
            })
      ])
    ])
  ]

module _ {S : Type 0} (hal : FlashHal S) (sectors : List Sector) (w : Wanted) where
  scan_back-IsMain :
      (fuel : ℕ) (s : S) (addr offset : ℕ) (found : Found)
      → IsMain hal found
      → IsMain hal (scan_back hal sectors w fuel s addr offset found)
  unfolding scan_back
  scan_back-IsMain zero s addr offset found h = h
  scan_back-IsMain (suc fuel) s addr offset found h =
      let on = scan_back-IsMain fuel s addr (offset - entry_size) in
      let zeroed = note_entry-IsMain hal w found zero_entry (inr refl) h in
      elim (Bool-cases (ltb offset (header_size + entry_size))) [
        | inl e ↦ rw (scan_back, e) h
        | inr e ↦ elim (Result-cases (hal.read s (addr + (offset - entry_size)) entry_size)) [
          | inr (inl (f, r)) ↦ rw (scan_back, e, r) (on found h)
          | inr (inr r) ↦ rw (scan_back, e, r) (on found h)
          | inl (bs, r) ↦ elim (EntryState-cases (classify_entry bs hal.erased_value)) [
            | inl c ↦
                let h' = note_entry-IsMain hal w found bs (inl c) h in
                rw (scan_back, e, r, c) (if_IsMain hal (is_complete w _) _ _ h' (on _ h'))
            | inr (inl c) ↦
                rw (scan_back, e, r, c) (if_IsMain hal (is_complete w _) _ _ zeroed (on _ zeroed))
            | inr (inr c) ↦
                rw (scan_back, e, r, c) (if_IsMain hal (is_complete w _) _ _ zeroed (on _ zeroed))
          ]
        ]
      ]

  sectors_back-IsMain :
      (steps : ℕ) (first : Bool) (j : Journal) (s : S) (seq : ℕ) (found : Found)
      → IsMain hal found
      → IsMain hal (sectors_back hal sectors w steps first j s seq found)
  unfolding sectors_back
  sectors_back-IsMain zero first j s seq found h = h
  sectors_back-IsMain (suc steps) first j s seq found h =
      elim (Option-cases (find_sector_by_seq hal sectors s seq)) [
        | inl e ↦
            rw (sectors_back, e)
              (if_IsMain hal (leb seq 1 && leb j.erase_count (length sectors)) found _ h
                (sectors_back-IsMain steps false j s _ found h))
        | inr ((i, bs), e) ↦
            rw (sectors_back, e)
              (let sec = get_or sectors i no_sector in
                let from = if first then j.write_offset else scan_for_frontier hal sectors s sec in
                let h' = scan_back-IsMain from s sec.addr from found h in
                if_IsMain hal (is_complete w _) _ _ h' (
                  if_IsMain hal (leb seq 1 && leb j.erase_count (length sectors)) _ _ h'
                    (sectors_back-IsMain steps false j s _ _ h')))
      ]

  -- The main intent that the reconstruction reports is a valid entry or the zeroed one. Its intent is
  -- none of `SLEEP_BACKOFF`, `DEPRECATED_NONCE` and `TXN_ROLLBACK_PENDING`, and neither that of the
  -- boot time accumulator nor that of a download checkpoint.
  pub reconstruct_txn-IsMainEntry :
      (j : Journal) (s : S) (bs : List ℕ)
      → (reconstruct_txn hal sectors w j s).1.main ≡ some bs
      → IsMainEntry hal bs
  unfolding reconstruct_txn
  reconstruct_txn-IsMainEntry j s bs =
      if-IsMain hal (not j.initialized) _ _ (λ bs h. cc)
        (if-IsMain hal (is_some _) _ _ (all_scanned j s) (all_scanned j s)) bs
    where
      all_scanned :
          (j : Journal) (s : S)
          → IsMain hal (
              sectors_back hal sectors w
                (length sectors)
                true
                j
                s
                j.sequence_id
                record { main = none; net_accum = none; resume = none })
      all_scanned j s = sectors_back-IsMain (length sectors) true j s j.sequence_id _ (λ bs h. cc)
