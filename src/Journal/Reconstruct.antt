-- ===== src/Journal/Reconstruct.antt =====
-- `boot_journal_reconstruct_txn`: the state of the transaction, from a scan of the log backwards.
use toob_loader.Common.{ℕ, zero, suc, ◌+◌, ◌-◌, ◌%◌, ◌^◌, Bool, true, false, not, ◌&&◌, ◌||◌}
use toob_loader.Common.{ltb, leb, ◌==◌, if◌then◌else◌, List, length, get_or, Option, none, some}
use toob_loader.Common.{replicate}
use toob_loader.Status.{Status, ok_status, state, ok, err, stuck}
use toob_loader.Hal.{FlashHal}
use toob_loader.Journal.Intent
use toob_loader.Journal.Wire.{entry_size, header_size, classify_entry, erased, valid, corrupt}
use toob_loader.Journal.Wire.{intent_of, delta_chunk_id_of, offset_of}
use toob_loader.Journal.{Journal, Sector, no_sector, find_sector_by_seq, scan_for_frontier}

-- `found_main_intent` with `*out_state`, and so for the accumulator and the resume offset.
pub record Found : Type 0 where
  pub main : Option (List ℕ)
  pub net_accum : Option ℕ
  pub resume : Option ℕ

-- Which of `out_net_accum` and `out_resume_offset` the caller passes.
pub record Wanted : Type 0 where
  pub want_accum : Bool
  pub want_resume : Bool

abbrev pub is_some {ℓ} : {A : Type ℓ} → Option A → Bool
is_some none = false
is_some (some a) = true

-- `if (!found) …`: the first value found stays.
abbrev pub first_of_two {ℓ} : {A : Type ℓ} → Option A → A → Option A
first_of_two none a = some a
first_of_two (some b) a = some b

-- The intents that do not touch the state of the main transaction.
unfoldable pub is_side_band : ℕ → Bool
is_side_band intent =
    intent == Intent.sleep_backoff
    || intent == Intent.deprecated_nonce
    || intent == Intent.txn_rollback_pending

-- What one valid entry adds.
unfoldable pub note_entry : Wanted → Found → List ℕ → Found
unfolding is_side_band
note_entry w found bs =
    let intent = intent_of bs in
    if intent == Intent.net_search_accum
    then if w.want_accum
      then record found { net_accum = first_of_two found.net_accum (offset_of bs) }
      else found
    else if intent == Intent.download_checkpoint
    then if w.want_resume
      then record found { resume = first_of_two found.resume (delta_chunk_id_of bs) }
      else found
    else if is_side_band intent
    then found
    else record found { main = first_of_two found.main bs }

-- Everything that the caller asked for is found.
unfoldable pub is_complete : Wanted → Found → Bool
is_complete w found =
    is_some found.main
    && (is_some found.net_accum || not w.want_accum)
    && (is_some found.resume || not w.want_resume)

-- `boot_secure_zeroize(&entry, sizeof(entry))`
abbrev pub zero_entry : List ℕ
zero_entry = replicate 64 0

module _ {S : Type 0} (hal : FlashHal S) (sectors : List Sector) (w : Wanted) where
  -- The scan of one sector from `offset` down to its first entry. The `continue` for an entry that
  -- is not valid stands inside `BOOT_SECURE_REQUIRE`, a `do … while (0)`: it only leaves that, and
  -- the zeroed entry is taken.
  unfoldable pub scan_back : ℕ → S → ℕ → ℕ → Found → Found
  unfolding note_entry is_complete
  scan_back zero s addr offset found = found
  scan_back (suc fuel) s addr offset found =
      let at = offset - entry_size in
      let skip = scan_back fuel s addr at found in
      let zeroed = note_entry w found zero_entry in
      let after_zeroed = scan_back fuel s addr at zeroed in
      let taken = if is_complete w zeroed then zeroed else after_zeroed in
      if ltb offset (header_size + entry_size)
      then found
      else elim (hal.read s (addr + at) entry_size) [
        | ok bs ↦ elim (classify_entry bs hal.erased_value) [
          | valid ↦
              let found' = note_entry w found bs in
              let more = scan_back fuel s addr at found' in
              if is_complete w found' then found' else more
          | erased ↦ taken
          | corrupt ↦ taken
        ]
        | err e ↦ skip
        | stuck ↦ skip
      ]

  -- The loop over the sectors, newest sequence first.
  unfoldable pub sectors_back : ℕ → Bool → Journal → S → ℕ → Found → Found
  unfolding scan_back
  sectors_back zero first j s seq found = found
  sectors_back (suc steps) first j s seq found =
      let stop = leb seq 1 && leb j.erase_count (length sectors) in
      elim (find_sector_by_seq hal sectors s seq) [
        | none ↦
            let later = sectors_back steps false j s ((seq + 2 ^ 32 - 1) % 2 ^ 32) found in
            if stop then found else later
        | some (i, bs) ↦
            let sec = get_or sectors i no_sector in
            let from = if first then j.write_offset else scan_for_frontier hal sectors s sec in
            let found' = scan_back from s sec.addr from found in
            let later = sectors_back steps false j s ((seq + 2 ^ 32 - 1) % 2 ^ 32) found' in
            if is_complete w found' then found' else if stop then found' else later
      ]

  -- `boot_journal_reconstruct_txn`: the status and what the out parameters hold.
  unfoldable pub reconstruct_txn : Journal → S → Status × Found
  unfolding sectors_back
  reconstruct_txn j s =
      let blank : Found = record { main = none; net_accum = none; resume = none } in
      let found = sectors_back (length sectors) true j s j.sequence_id blank in
      if not j.initialized
      then (state, blank)
      else if is_some found.main
      then (ok_status, found)
      else (state, found)
