-- ===== src/Mailbox/Tests.antt =====
-- Runs of the mailbox, which lies behind a log of two sectors in a memory.
use toob_loader.Common.{ℕ, ◌≡◌, ◌≤◌, length, subst, refl, arith, List, [], ◌++◌, replicate, some}
use toob_loader.Status.{Status, ok_status, ok, err, crypto, Result}
use toob_loader.Crc32.{compute}
use toob_loader.Hal.{CryptoHal}
use toob_loader.Journal.Init.{get_tmr}
use toob_loader.Journal.{Journal, same_bytes, read_header, best_sector, rotate_to_sector}
use toob_loader.Journal.Samples.{memory, log_with, two, journal_at}
use toob_loader.Journal.Wire.{
  u32_bytes, u16_bytes, header_bytes, verify_header_crc, seal, is_fully_erased,
}
use toob_loader.Journal.Append.{append, chain_count_of}
use toob_loader.Journal.UpdateTmr.{update_tmr}
use toob_loader.Journal.Fields.{last_mbx_request_id_of}
use toob_loader.Mailbox.{mailbox_magic, mbx_read_best, mbx_apply, apply_then_mark, consume}
use toob_loader.Mailbox.Marked.{LongDigests, consume-marked}
use toob_loader.Mailbox.Once.{consume-once}

-- A record with its checksum.
abbrev record_of : ℕ → ℕ → ℕ → ℕ → List ℕ
record_of request seq place nonce =
    let fields =
      u32_bytes mailbox_magic
      ++ (u16_bytes 1
          ++ (u16_bytes request
              ++ (u32_bytes seq ++ (u32_bytes place ++ (u32_bytes nonce ++ u32_bytes 0))))) in
    fields ++ (u32_bytes (compute fields) ++ u32_bytes 0)

abbrev update_request : List ℕ
update_request = record_of 1 8 4096 0

-- The log, with a record in the second slot of the mailbox.
abbrev flash_with : List ℕ → List ℕ
flash_with rec = log_with (replicate 128 255) ++ (replicate 32 255 ++ rec)

-- A chip whose digests are all zeroes.
abbrev zero_crypto : CryptoHal
zero_crypto = record {
  read_chip_uid = err crypto;
  read_pubkey = λ i. err crypto;
  hash = λ parts. ok (replicate 32 0);
}

abbrev digest_of : Result (List ℕ) → List ℕ
digest_of (ok digest) = digest
digest_of _ = []

zero_crypto-LongDigests : LongDigests zero_crypto
zero_crypto-LongDigests = record {
  long_digest = λ parts digest h.
      subst (λ r. 16 ≤ length (digest_of r)) {x = ok (replicate 32 0)} {y = ok digest} h
        (omega arith);
}

abbrev taken : Status × Journal × List ℕ
taken =
    consume memory two zero_crypto 512 32 (ok 0) (ok 0) (journal_at 128) (flash_with update_request)

taken-ok : taken ≡ (ok_status, taken.1, taken.2)
unfolding consume mbx_read_best header_bytes compute get_tmr apply_then_mark mbx_apply append
    is_fully_erased same_bytes seal update_tmr read_header verify_header_crc rotate_to_sector
    best_sector
taken-ok = refl

found :
    mbx_read_best memory two zero_crypto 512 32 (flash_with update_request) ≡ some update_request
unfolding mbx_read_best header_bytes compute
found = refl

found_again : mbx_read_best memory two zero_crypto 512 32 taken.2 ≡ some update_request
unfolding consume mbx_read_best header_bytes compute get_tmr apply_then_mark mbx_apply append
    is_fully_erased same_bytes seal update_tmr read_header verify_header_crc rotate_to_sector
    best_sector
found_again = refl

consume-marked_example :
    (last_mbx_request_id_of taken.1.tmr ≡ 8)
    × (chain_count_of taken.1.tmr ≡ chain_count_of (journal_at 128).tmr)
consume-marked_example =
    consume-marked memory two zero_crypto 512 32 (ok 0) (ok 0) (journal_at 128)
      (flash_with update_request) update_request taken.1 taken.2 zero_crypto-LongDigests
      (omega arith) refl found (omega arith) (omega arith) taken-ok

consume-once_example :
    consume memory two zero_crypto 512 32 (ok 0) (ok 0) taken.1 taken.2
    ≡ (ok_status, taken.1, taken.2)
consume-once_example =
    consume-once memory two zero_crypto 512 32 (ok 0) (ok 0) (ok 0) (ok 0) (journal_at 128)
      (flash_with update_request) update_request taken.1 taken.2 zero_crypto-LongDigests
      (omega arith) refl found (omega arith) (omega arith) taken-ok found_again
