-- ===== src/Mailbox.antt =====
-- toobloader/core/boot_mailbox.c: requests of the operating system, which the core takes over into its
-- journal. The record is the one of common/include/toob_mailbox_wire.h.
pub mod Marked
pub mod Once
mod Tests
use toob_loader.Common.{ℕ, ◌+◌, ◌*◌, Bool, not, ◌&&◌, ltb, ◌==◌, if◌then◌else◌}
use toob_loader.Common.{List, [], ◌∷◌, take, Option, none, some}
use toob_loader.Status.{Status, ok_status, is_ok, Result, ok, err, stuck}
use toob_loader.Hal.{FlashHal, CryptoHal}
use toob_loader.Crc32
use toob_loader.Tbm1.Layout.{u32_at, u16_at}
use toob_loader.Journal.{Journal, Sector}
use toob_loader.Journal.Intent
use toob_loader.Journal.Append.{append}
use toob_loader.Journal.UpdateTmr.{update_tmr}
use toob_loader.Journal.Init.{get_tmr}
use toob_loader.Journal.Fields.{active_nonce_of, last_mbx_request_id_of, with_last_mbx_request_id}
use toob_loader.Journal.Fields.{entry_of}

-- `TOOB_MAILBOX_MAGIC`, `TOOB_MAILBOX_CRC_LEN` and `sizeof(toob_mailbox_t)`
abbrev pub mailbox_magic : ℕ
mailbox_magic = 0x58424D54

abbrev pub mailbox_crc_len : ℕ
mailbox_crc_len = 24

abbrev pub mailbox_size : ℕ
mailbox_size = 32

-- `toob_req_t`
abbrev pub req_update_pending : ℕ
req_update_pending = 1

abbrev pub req_confirm : ℕ
req_confirm = 2

abbrev pub req_recovery_resolved : ℕ
req_recovery_resolved = 3

-- The fields of `toob_mailbox_t`, at their places in the record.
abbrev pub request_of : List ℕ → ℕ
request_of rec = u16_at rec 6

abbrev pub seq_of : List ℕ → ℕ
seq_of rec = u32_at rec 8

abbrev pub tbm1_addr_of : List ℕ → ℕ
tbm1_addr_of rec = u32_at rec 12

abbrev pub nonce_of : List ℕ → ℕ
nonce_of rec = u32_at rec 16 + 4294967296 * u32_at rec 20

-- The checks of `mbx_read_valid` on the record read.
unfoldable pub is_record_valid : List ℕ → Bool
is_record_valid rec =
    u32_at rec 0 == mailbox_magic && Crc32.compute (take mailbox_crc_len rec) == u32_at rec 24

-- The better one of the slot just read and the best record so far.
unfoldable pub better : Option (List ℕ) → Option (List ℕ) → Option (List ℕ)
better none best = best
better (some rec) none = some rec
better (some rec) (some best) = if ltb (seq_of best) (seq_of rec) then some rec else some best

-- The geometry, `CHIP_MAILBOX_ABS_ADDR` and `CHIP_MAILBOX_SLOT_SIZE`, comes from the build.
module _ {S : Type 0} (hal : FlashHal S) (sectors : List Sector) (crypto : CryptoHal)
    (base slot_size : ℕ) where
  -- `mbx_read_valid`
  unfoldable pub mbx_read_valid : S → ℕ → Option (List ℕ)
  unfolding is_record_valid
  mbx_read_valid s i = elim (hal.read s (base + i * slot_size) mailbox_size) [
    | ok rec ↦ if is_record_valid rec then some rec else none
    | err e ↦ none
    | stuck ↦ none
  ]

  -- `mbx_read_best` over the two slots
  unfoldable pub mbx_read_best : S → Option (List ℕ)
  unfolding mbx_read_valid better
  mbx_read_best s = better (mbx_read_valid s 1) (better (mbx_read_valid s 0) none)

  -- `mbx_apply`
  unfoldable pub mbx_apply : Journal → S → List ℕ → List ℕ → Status × Journal × S
  mbx_apply j s rec tmr =
      let commit = append hal sectors crypto.hash j s in
      if request_of rec == req_update_pending
      then commit (entry_of Intent.update_pending 0 (tbm1_addr_of rec))
      else if request_of rec == req_confirm
      then if nonce_of rec == active_nonce_of tmr
        then commit (entry_of Intent.confirm_commit 0 0)
        else (ok_status, j, s)
      else if request_of rec == req_recovery_resolved
      then commit (entry_of Intent.recovery_resolved 0 0)
      else (ok_status, j, s)

  -- The part of `boot_mailbox_consume` behind its gate. The payload was copied before the request was
  -- applied.
  unfoldable pub apply_then_mark :
      Result ℕ → Result ℕ → Journal → S → List ℕ → List ℕ → Status × Journal × S
  apply_then_mark first second j s rec tmr =
      let (code, j1, s1) = mbx_apply j s rec tmr in
      if is_ok code
      then update_tmr hal sectors crypto.hash first second j1 s1
          (with_last_mbx_request_id tmr (seq_of rec))
      else (code, j1, s1)

  -- `boot_mailbox_consume`, given what the two reads of the eFuse counter bring
  unfoldable pub consume : Result ℕ → Result ℕ → Journal → S → Status × Journal × S
  consume first second j s = elim (mbx_read_best s) [
    | none ↦ (ok_status, j, s)
    | some rec ↦ elim (get_tmr j) [
      | ok tmr ↦
          if ltb (last_mbx_request_id_of tmr) (seq_of rec)
          then apply_then_mark first second j s rec tmr
          else (ok_status, j, s)
      | err e ↦ (e, j, s)
      | stuck ↦ (ok_status, j, s)
    ]
  ]
