-- ===== src/Stage0.antt =====
-- toobloader/stage0/stage0_boot_pointer.c and toobloader/stage0/stage0_tentative.c: which bank of
-- stage 1 is started.
mod Tests
mod BootTests
pub mod Highest
pub mod Agrees
pub mod Boot
pub mod Booted
pub mod Signed
pub mod Voted
pub mod Starts
use toob_loader.Common.{ℕ, Bool, true, false, ◌&&◌, ltb, ◌==◌, if◌then◌else◌, List, [], ◌∷◌}
use toob_loader.Common.{Option, none, some}
use toob_loader.Status.{Result, ok, err, stuck}
use toob_loader.Hal.{FlashHal}
use toob_loader.Tbm1.Layout.{u32_at}
use toob_loader.Journal.{Sector}
use toob_loader.Journal.Wire.{header_size, verify_header_crc, magic_legacy, sector_magic_of}
use toob_loader.Journal.Wire.{sequence_id_of, tmr_of}
use toob_loader.Journal.Fields.{active_stage1_bank_of, stage1_svn_of}
use toob_loader.Journal.Migrate.{tmr_v1_of}

-- What is taken out of the header with the highest sequence number.
pub record BootPointer : Type 0 where
  pub highest_seq : ℕ
  pub bank : ℕ
  pub svn : ℕ

-- The values before the first header.
abbrev pub no_pointer : BootPointer
no_pointer = record { highest_seq = 0; bank = 0; svn = 0 }

-- The fields of a header whose checksum holds; a header of the first version has no `stage1_svn`.
unfoldable pub pointer_of : List ℕ → BootPointer
pointer_of bs =
    if sector_magic_of bs == magic_legacy
    then record { highest_seq = sequence_id_of bs; bank = u32_at (tmr_v1_of bs) 4; svn = 0 }
    else record {
      highest_seq = sequence_id_of bs;
      bank = active_stage1_bank_of (tmr_of bs);
      svn = stage1_svn_of (tmr_of bs);
    }

-- `valid && seq_id > highest_seq`
unfoldable pub note_header : Option (List ℕ) → BootPointer → BootPointer
note_header none best = best
note_header (some bs) best =
    if ltb best.highest_seq (sequence_id_of bs) then pointer_of bs else best

module _ {S : Type 0} (hal : FlashHal S) where
  -- A header that is read and whose checksum holds. The code repeats the tests of
  -- `verify_header_crc_glitch_safe`.
  unfoldable pub valid_header : S → Sector → Option (List ℕ)
  valid_header s sec = elim (hal.read s sec.addr header_size) [
    | ok bs ↦ if verify_header_crc bs then some bs else none
    | err e ↦ none
    | stuck ↦ none
  ]

  -- `stage0_scan_wal_highest`
  unfoldable pub scan_wal_highest : S → List Sector → BootPointer → BootPointer
  scan_wal_highest s [] best = best
  scan_wal_highest s (sec ∷ secs) best =
      scan_wal_highest s secs (note_header (valid_header s sec) best)

  -- `stage0_get_active_slot`, with the addresses of the two banks
  unfoldable pub get_active_slot : ℕ → ℕ → S → List Sector → ℕ
  get_active_slot stage1a stage1b s secs =
      if (scan_wal_highest s secs no_pointer).bank == 0 then stage1a else stage1b

  -- `stage0_get_stage1_svn`
  unfoldable pub get_stage1_svn : S → List Sector → ℕ
  get_stage1_svn s secs = (scan_wal_highest s secs no_pointer).svn

-- `reset_reason_t`
pub data ResetReason : Type 0 where
  unknown power_on pin_reset watchdog brownout software hard_fault : ResetReason

-- The reasons for which a trial boot counts as failed.
unfoldable pub is_crash : ResetReason → Bool
is_crash watchdog = true
is_crash hard_fault = true
is_crash brownout = true
is_crash _ = false

-- `stage0_evaluate_tentative`: the slot to start, and `toob_handoff_state.magic` afterwards.
-- `tentative` is `TOOB_STATE_TENTATIVE`.
unfoldable pub evaluate_tentative : ℕ → ℕ → ℕ → ResetReason → ℕ → ℕ → ℕ × ℕ
evaluate_tentative stage1a stage1b tentative reason magic slot =
    if magic == tentative && is_crash reason
    then (if slot == stage1a then stage1b else stage1a, 0)
    else (slot, magic)
