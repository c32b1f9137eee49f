-- ===== src/Journal/Tests.antt =====
-- Tests of the journal, on a log of one or two sectors in a memory.
use toob_loader.Common.{ℕ, ◌+◌, ◌-◌, ◌≡◌, ◌≢◌, refl, arith}
use toob_loader.Common.{true, false, ◌⊎◌, List, [], ◌∷◌, ◌++◌}
use toob_loader.Common.{get_elem?, replicate, none, some}
use toob_loader.Status.{Status, ok_status, ok}
use toob_loader.Journal.Wire.{header_bytes, header_size, entry_size, seal}
use toob_loader.Journal.Wire.{classify_entry, corrupt, valid}
use toob_loader.Journal.Wire.{verify_header_crc, is_fully_erased}
use toob_loader.Crc32.{compute}
use toob_loader.Journal.{same_bytes}
use toob_loader.Journal.Samples.{
  memory, first, second, tmr, log_with, blank_log, two, journal_at, no_hash,
}
use toob_loader.Journal.{Journal, Sector}
use toob_loader.Journal.{
  best_sector, scan_for_frontier, find_sector_by_seq, is_excluded, read_header,
}
use toob_loader.Journal.{rotate_to_sector}
use toob_loader.Journal.Append.{append}
use toob_loader.Journal.Reconstruct.{Wanted, zero_entry, reconstruct_txn}
use toob_loader.Journal.BestSector.{best_sector-picked, best_sector-protected, is_protected}
use toob_loader.Journal.Frontier.{scan_for_frontier-IsFrontier, IsFrontier}
use toob_loader.Journal.MainIntent.{reconstruct_txn-IsMainEntry, IsMainEntry}
use toob_loader.Journal.Hidden.{reconstruct_txn-zeroed}
use toob_loader.Journal.Appended.{append-seal}
use toob_loader.Journal.Updated.{update_tmr-IsUpdated, IsUpdated}
use toob_loader.Journal.UpdateTmr.{update_tmr, anchor, epoch_of, read_counter_safe}

-- The intent is `UPDATE_PENDING`.
abbrev pending : List ℕ
pending = seal (replicate 4 0 ++ (2 ∷ replicate 59 0))

abbrev torn : List ℕ
torn = replicate 64 1

abbrev pending_log : List ℕ
pending_log = log_with (pending ++ replicate 64 255)

abbrev torn_log : List ℕ
torn_log = log_with (pending ++ torn)

abbrev main_only : Wanted
main_only = record { want_accum = false; want_resume = false }

abbrev copies : List (List ℕ)
copies = (1 ∷ []) ∷ ((2 ∷ []) ∷ ((2 ∷ []) ∷ []))

best_sector-picked_example :
    let r = best_sector memory two blank_log 9 (0 ∷ []) in
    (r ≡ 0)
    ⊎ ((sec : Sector) × (get_elem? two r ≡ some sec)
        × (is_excluded memory two (0 ∷ []) r ≡ false)
        × (is_protected 9 (read_header memory two blank_log sec) ≡ false))
best_sector-picked_example = best_sector-picked memory two blank_log 9 (0 ∷ []) (omega arith)

all_protected :
    (is_protected 5 (read_header memory two blank_log first) ≡ true)
    × (is_protected 5 (read_header memory two blank_log second) ≡ true)
unfolding read_header verify_header_crc header_bytes compute
all_protected = (refl, refl)

best_sector-protected_example : best_sector memory two blank_log 5 (0 ∷ []) ≡ 0
best_sector-protected_example =
    best_sector-protected memory two blank_log 5 (0 ∷ []) (all_protected.0, (all_protected.1, tt))

scan_for_frontier-IsFrontier_example :
    IsFrontier memory torn_log 0 256 header_size (scan_for_frontier memory two torn_log first)
scan_for_frontier-IsFrontier_example = scan_for_frontier-IsFrontier memory two torn_log first

found_pending :
    (reconstruct_txn memory two main_only (journal_at 192) pending_log).1.main ≡ some pending
unfolding reconstruct_txn find_sector_by_seq verify_header_crc header_bytes compute classify_entry
    seal
found_pending = refl

reconstruct_txn-IsMainEntry_example : IsMainEntry memory pending
reconstruct_txn-IsMainEntry_example =
    reconstruct_txn-IsMainEntry memory two main_only (journal_at 192) pending_log pending
      found_pending

found_header : find_sector_by_seq memory two torn_log 5 ≡ some (0, header_bytes 5 1 tmr)
unfolding find_sector_by_seq verify_header_crc header_bytes compute
found_header = refl

torn-corrupt : classify_entry torn 255 ≡ corrupt
unfolding classify_entry
torn-corrupt = refl

torn-invalid : classify_entry torn 255 ≢ valid
torn-invalid e = cc (e, torn-corrupt)

reconstruct_txn-zeroed_example :
    let r = reconstruct_txn memory two main_only (journal_at 256) torn_log in
    (r.0 ≡ ok_status) × (r.1.main ≡ some zero_entry)
reconstruct_txn-zeroed_example =
    reconstruct_txn-zeroed memory two main_only 1 (journal_at 256) torn_log 0 (header_bytes 5 1 tmr)
      torn refl refl found_header (omega arith) (unfold header_bytes seal in refl) torn-invalid

appended :
    append memory two no_hash (journal_at 192) pending_log torn
    ≡ (ok_status, journal_at 256, log_with (pending ++ seal torn))
unfolding append is_fully_erased header_bytes seal same_bytes compute
appended = refl

append-seal_example :
    memory.read (log_with (pending ++ seal torn)) (0 + (256 - entry_size)) entry_size
    ≡ ok (seal torn)
append-seal_example =
    append-seal memory two no_hash (journal_at 192) pending_log torn (journal_at 256)
      (log_with (pending ++ seal torn)) appended

abbrev new_tmr : List ℕ
new_tmr = replicate 112 1

abbrev written : Status × Journal × List ℕ
written = update_tmr memory two no_hash (ok 0) (ok 0) (journal_at 192) pending_log new_tmr

written-ok : written ≡ (ok_status, written.1, written.2)
unfolding update_tmr read_header verify_header_crc header_bytes compute same_bytes rotate_to_sector
    best_sector seal is_fully_erased
written-ok = refl

update_tmr-IsUpdated_example :
    ((tmr ≡ new_tmr) × (journal_at 192 ≡ written.1) × (pending_log ≡ written.2))
    ⊎ IsUpdated memory two no_hash 5 3
        (anchor memory two no_hash none (epoch_of (read_counter_safe (ok 0) (ok 0))) new_tmr)
        written.1
update_tmr-IsUpdated_example =
    update_tmr-IsUpdated memory two no_hash (ok 0) (ok 0) (journal_at 192) pending_log new_tmr
      written.1 written.2 written-ok
