-- ===== src/Journal/Hidden.antt =====
-- `boot_journal_reconstruct_txn` on a log whose newest entry is not valid.
use toob_loader.Common.{ℕ, zero, suc, ◌+◌, ◌-◌, ◌≤◌, ◌≡◌, ◌≢◌, refl, Bool, true, false, not}
use toob_loader.Common.{List, length, get_or, Option, none, some, if◌then◌else◌}
use toob_loader.Common.{
  inl, inr, ltb, leb, ◌==◌, ◌&&◌, le→ltb_false, arith, ap, sym, subst, ◌%◌, ◌^◌, Option-cases,
}
use toob_loader.Status.{Status, state, ok_status, ok, Result-cases}
use toob_loader.Hal.{FlashHal}
use toob_loader.Journal.Wire.{EntryState-cases, valid, classify_entry}
use toob_loader.Journal.Wire.{entry_size, header_size, intent_of, offset_of, delta_chunk_id_of}
use toob_loader.Journal.Intent
use toob_loader.Journal.{Journal, Sector, no_sector, find_sector_by_seq, scan_for_frontier}
use toob_loader.Journal.Reconstruct.{
  zero_entry, Found, Wanted, is_side_band, note_entry, is_complete,
}
use toob_loader.Journal.Reconstruct.{
  scan_back, sectors_back, reconstruct_txn, first_of_two, is_some,
}

-- The main intent found is `b`.
record HasMain (b : List ℕ) (found : Found) : Type 0 where
  is_main : found.main ≡ some b

if_main :
    {b : List ℕ} (t : Bool) (x y : Found)
    → HasMain b x
    → HasMain b y
    → HasMain b (if t then x else y)
if_main true x y hx hy = hx
if_main false x y hx hy = hy

first_of_two-kept :
    {b : List ℕ} (o : Option (List ℕ)) (x : List ℕ) → o ≡ some b → first_of_two o x ≡ some b
first_of_two-kept none x e = cc
first_of_two-kept (some c) x e = e

note_entry-kept :
    {b : List ℕ} (w : Wanted) (found : Found) (x : List ℕ)
    → HasMain b found
    → HasMain b (note_entry w found x)
unfolding note_entry
note_entry-kept w found x h =
    if_main (intent_of x == Intent.net_search_accum) _ _
      (if_main w.want_accum
        (record found { net_accum = first_of_two found.net_accum (offset_of x) }) found
        record { is_main = h.is_main } h)
      (if_main (intent_of x == Intent.download_checkpoint) _ _
        (if_main w.want_resume
          (record found { resume = first_of_two found.resume (delta_chunk_id_of x) }) found
          record { is_main = h.is_main } h)
        (if_main (is_side_band (intent_of x)) found
          (record found { main = first_of_two found.main x }) h
          record { is_main = first_of_two-kept found.main x h.is_main }))

-- Nothing was found, so that the zeroed entry is the main intent.
note_entry-zeroed :
    (w : Wanted) (found : Found)
    → found.main ≡ none
    → HasMain zero_entry (note_entry w found zero_entry)
unfolding note_entry is_side_band
note_entry-zeroed w found h = record { is_main = ap (λ o. first_of_two o zero_entry) h }

reported :
    {b : List ℕ} (t u : Bool) (blank found : Found)
    → t ≡ true
    → u ≡ true
    → found.main ≡ some b
    → let r : Status × Found =
        if not t then (state, blank) else if u then (ok_status, found) else (state, found) in
      (r.0 ≡ ok_status) × (r.1.main ≡ some b)
reported true true blank found ht hu h = (refl, h)
reported true false blank found ht hu h = cc
reported false u blank found ht hu h = cc

module _ {S : Type 0} (hal : FlashHal S) (sectors : List Sector) (w : Wanted) where
  scan_back-kept :
      {b : List ℕ} (fuel : ℕ) (s : S) (addr offset : ℕ) (found : Found)
      → HasMain b found
      → HasMain b (scan_back hal sectors w fuel s addr offset found)
  unfolding scan_back
  scan_back-kept zero s addr offset found h = h
  scan_back-kept (suc fuel) s addr offset found h =
      let on = scan_back-kept fuel s addr (offset - entry_size) in
      let noted = λ (x : List ℕ).
        if_main (is_complete w (note_entry w found x)) _ _ (note_entry-kept w found x h)
          (on _ (note_entry-kept w found x h)) in
      if_main (ltb offset (header_size + entry_size)) _ _ h
        (elim (Result-cases (hal.read s (addr + (offset - entry_size)) entry_size)) [
          | inr (inl (f, r)) ↦ rw r (on found h)
          | inr (inr r) ↦ rw r (on found h)
          | inl (bs, r) ↦ rw r (elim (EntryState-cases (classify_entry bs hal.erased_value)) [
            | inl c ↦ rw c (noted bs)
            | inr (inl c) ↦ rw c (noted zero_entry)
            | inr (inr c) ↦ rw c (noted zero_entry)
          ])
        ])

  sectors_back-kept :
      {b : List ℕ} (steps : ℕ) (first : Bool) (j : Journal) (s : S) (seq : ℕ) (found : Found)
      → HasMain b found
      → HasMain b (sectors_back hal sectors w steps first j s seq found)
  unfolding sectors_back
  sectors_back-kept zero first j s seq found h = h
  sectors_back-kept {b = b} (suc steps) first j s seq found h =
      let on = λ (f : Found) (h : HasMain b f).
        sectors_back-kept steps false j s ((seq + 2 ^ 32 - 1) % 2 ^ 32) f h in
      elim (Option-cases (find_sector_by_seq hal sectors s seq)) [
        | inl e ↦
            rw (sectors_back, e)
              (if_main (leb seq 1 && leb j.erase_count (length sectors)) _ _ h (on found h))
        | inr ((i, bs), e) ↦
            rw (sectors_back, e)
              (let sec = get_or sectors i no_sector in
                let from = if first then j.write_offset else scan_for_frontier hal sectors s sec in
                let h' = scan_back-kept from s sec.addr from found h in
                if_main (is_complete w _) _ _ h'
                  (if_main (leb seq 1 && leb j.erase_count (length sectors)) _ _ h' (on _ h')))
      ]

  -- The newest entry can be read and is not valid.
  scan_back-zeroed :
      (fuel : ℕ) (s : S) (addr offset : ℕ) (found : Found) (bs : List ℕ)
      → 192 ≤ offset
      → offset ≤ fuel
      → hal.read s (addr + (offset - entry_size)) entry_size ≡ ok bs
      → classify_entry bs hal.erased_value ≢ valid
      → found.main ≡ none
      → HasMain zero_entry (scan_back hal sectors w fuel s addr offset found)
  unfolding scan_back
  scan_back-zeroed zero s addr offset found bs big enough r bad h = absurd (omega arith)
  scan_back-zeroed (suc fuel) s addr offset found bs big enough r bad h =
      let z = note_entry-zeroed w found h in
      let taken =
        if_main (is_complete w (note_entry w found zero_entry)) _ _ z
          (scan_back-kept fuel s addr (offset - entry_size) _ z) in
      elim (EntryState-cases (classify_entry bs hal.erased_value)) [
        | inl c ↦ absurd (bad c)
        | inr (inl c) ↦ rw (scan_back, le→ltb_false offset 192 big, r, c) taken
        | inr (inr c) ↦ rw (scan_back, le→ltb_false offset 192 big, r, c) taken
      ]

  sectors_back-zeroed :
      (steps : ℕ) (j : Journal) (s : S) (found : Found) (i : ℕ) (hdr bs : List ℕ)
      → find_sector_by_seq hal sectors s j.sequence_id ≡ some (i, hdr)
      → 192 ≤ j.write_offset
      → hal.read s ((get_or sectors i no_sector).addr + (j.write_offset - entry_size)) entry_size
        ≡ ok bs
      → classify_entry bs hal.erased_value ≢ valid
      → found.main ≡ none
      → HasMain zero_entry (sectors_back hal sectors w (suc steps) true j s j.sequence_id found)
  unfolding sectors_back
  sectors_back-zeroed steps j s found i hdr bs at big r bad h =
      let sec = get_or sectors i no_sector in
      let z =
        scan_back-zeroed j.write_offset s sec.addr j.write_offset found bs big (omega arith) r bad
          h in
      rw (sectors_back, at)
        (if_main (is_complete w _) _ _ z (
          if_main (leb j.sequence_id 1 && leb j.erase_count (length sectors)) _ _ z
            (sectors_back-kept steps false j s ((j.sequence_id + 2 ^ 32 - 1) % 2 ^ 32) _ z)))

  -- Where the slot in front of the frontier of the active sector can be read but holds no valid
  -- entry, the reconstruction reports success with an entry of zeroes, intent `NONE`, as the main
  -- transaction, whatever valid entries stand in front of it.
  pub reconstruct_txn-zeroed :
      (steps : ℕ) (j : Journal) (s : S) (i : ℕ) (hdr bs : List ℕ)
      → length sectors ≡ suc steps
      → j.initialized ≡ true
      → find_sector_by_seq hal sectors s j.sequence_id ≡ some (i, hdr)
      → 192 ≤ j.write_offset
      → hal.read s ((get_or sectors i no_sector).addr + (j.write_offset - entry_size)) entry_size
        ≡ ok bs
      → classify_entry bs hal.erased_value ≢ valid
      → let r = reconstruct_txn hal sectors w j s in
        (r.0 ≡ ok_status) × (r.1.main ≡ some zero_entry)
  unfolding reconstruct_txn
  reconstruct_txn-zeroed steps j s i hdr bs count init at big r bad =
      let blank : Found = record { main = none; net_accum = none; resume = none } in
      let z =
        subst (λ n. HasMain zero_entry (sectors_back hal sectors w n true j s j.sequence_id blank))
          (sym count) (sectors_back-zeroed steps j s blank i hdr bs at big r bad refl) in
      reported j.initialized (is_some _) _ _ init (ap is_some z.is_main) z.is_main
