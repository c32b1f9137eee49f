-- ===== src/Stage0/BootTests.antt =====
-- A start out of a memory: the first bank is blank, the second one is signed.
use toob_loader.Common.{ℕ, ◌≡◌, refl, inr, List, [], ◌∷◌, ◌++◌, replicate, some, false, ◌==◌}
use toob_loader.Common.{if◌then◌else◌}
use toob_loader.Status.{Status, ok_status, verify, not_found, ok, err}
use toob_loader.Hal.{CryptoHal}
use toob_loader.Journal.UpdateTmr.{read_counter_safe}
use toob_loader.Journal.Samples.{memory}
use toob_loader.Stage0.{power_on}
use toob_loader.Stage0.Boot.{
  Proof, eligible, jump, key_index_of, dslc_byte, count_same, find_three, vote_dslc, vote_rounds,
  Readings, Layout, DigestCheck, verify_digest, hash_pieces, hash_compute, check_bank_image,
  load_key, try_boot_bank, stage0_main,
}
use toob_loader.Stage0.Signed.{try_boot_bank-IsStarted}
use toob_loader.Stage0.Starts.{stage0_main_starts, with_floor, try_boot_bank-with_floor}

-- An image of one byte, with its signature.
abbrev good_bank : List ℕ
good_bank = 66 ∷ (79 ∷ (79 ∷ (84 ∷ (1 ∷ (0 ∷ (0 ∷ (0 ∷ (16 ∷ replicate 76 0))))))))

abbrev flash_bytes : List ℕ
flash_bytes = replicate 85 0 ++ good_bank

abbrev one_key : CryptoHal
one_key = record {
  read_chip_uid = err not_found;
  read_pubkey = λ i. if i == 2 then ok (7 ∷ []) else err not_found;
  hash = λ parts. ok (replicate 32 1);
}

abbrev signed_by : List ℕ → Status
signed_by (x ∷ xs) = if x == 7 then ok_status else verify
signed_by [] = verify

abbrev toy_check : DigestCheck
toy_check = some (λ digest sig key. signed_by key)

abbrev banks : Layout
banks = record { stage1a = 0; stage1b = 85; app_slot_size = 64; tentative = 1; dev_bypass = false }

abbrev readings : Readings
readings = record {
  dslc_reads = ok (3 ∷ []) ∷ (err not_found ∷ (ok (3 ∷ []) ∷ (ok (3 ∷ []) ∷ (err verify ∷ []))));
  floor_reads = (ok 2, ok 2);
  preferred_reads = (ok 2, ok 2);
  fallback_reads = (ok 2, ok 2);
  reset_reason = power_on;
  handoff_magic = 0;
}

abbrev started : Proof
started = record { image_addr = 85; proof_size = 1; proof_entry = 16; proof_svn = 2 }

voted : vote_dslc readings.dslc_reads ≡ some 3
unfolding vote_dslc vote_rounds dslc_byte find_three count_same
voted = refl

second_bank :
    try_boot_bank memory one_key toy_check banks flash_bytes 3 2 (ok 2, ok 2) 85 ≡ eligible started
unfolding try_boot_bank check_bank_image load_key key_index_of read_counter_safe verify_digest
    hash_compute hash_pieces
second_bank = refl

stage0_main_starts_example :
    (p : Proof) × (stage0_main memory one_key toy_check banks flash_bytes [] readings ≡ jump p)
stage0_main_starts_example =
    stage0_main_starts memory one_key toy_check banks flash_bytes [] readings 3 85 started voted
      refl (inr refl)
      (try_boot_bank-IsStarted memory one_key toy_check banks flash_bytes 3 2 (ok 2, ok 2) 85
        started second_bank)

try_boot_bank-with_floor_example :
    try_boot_bank memory one_key toy_check banks flash_bytes 3 1000 (ok 2, ok 2) 85
    ≡ with_floor 1000 (try_boot_bank memory one_key toy_check banks flash_bytes 3 2 (ok 2, ok 2) 85)
try_boot_bank-with_floor_example =
    try_boot_bank-with_floor memory one_key toy_check banks flash_bytes 3 2 1000 (ok 2, ok 2) 85
