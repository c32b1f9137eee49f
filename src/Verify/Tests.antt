-- ===== src/Verify/Tests.antt =====
-- Runs on a buffer of eight bytes, and an instance of the theorem.
use toob_loader.Common.{ℕ, ◌≡◌, ◌≤◌, ◌<◌, refl, List, [], ◌∷◌, some, ◌==◌, if◌then◌else◌}
use toob_loader.Common.{length, Bool, arith, true}
use toob_loader.Status.{Status, ok_status, not_found, crypto, verify, ok, err}
use toob_loader.Hal.{CryptoHal, SignatureHal}
use toob_loader.Effect.{is_buffer_within}
use toob_loader.Verify.{Envelope, WorkBuffer, verify_manifest_envelope, check_bounds}
use toob_loader.Verify.{
  check_revoked, check_ed25519, check_pqc, is_pqc_required, bytes_of, not_all_zeros, or_bytes,
}
use toob_loader.Verify.{and_bytes}
use toob_loader.Verify.Accepted.{
  KeyReadsFail, NotRevoked, Signed, PqcAsked, PqcSigned, verify_manifest_envelope-accepts,
}

-- One key in slot 0; a signature is the first byte of its message and that of its key.
abbrev keys : CryptoHal
keys = record {
  read_chip_uid = err crypto;
  read_pubkey = λ i. if i == 0 then ok (7 ∷ (8 ∷ [])) else err not_found;
  hash = λ parts. err crypto;
}

abbrev first_of : List ℕ → ℕ
first_of [] = 0
first_of (x ∷ xs) = x

abbrev toy_check : List ℕ → List ℕ → List ℕ → Status
toy_check message signature key =
    if first_of signature == first_of message
    then if first_of key == 7 then ok_status else verify
    else verify

abbrev toy_signatures : SignatureHal
toy_signatures = record {
  verify_signature = toy_check;
  is_pqc_enforced = some true;
  verify_pqc = some toy_check;
}

abbrev buffer : WorkBuffer
buffer = record { base = 1000; content = 5 ∷ (2 ∷ (3 ∷ (4 ∷ (5 ∷ (6 ∷ (7 ∷ (8 ∷ []))))))) }

abbrev envelope : ℕ → Envelope
envelope i = record {
  manifest_size = 8;
  signature_ed25519 = 5 ∷ [];
  key_index = i;
  pqc_hybrid_active = true;
  signature_pqc = record { start = 1004; len = 2 };
  pubkey_pqc = record { start = 1006; len = 2 };
}

accepted : verify_manifest_envelope keys toy_signatures true (envelope 0) buffer ≡ ok_status
unfolding verify_manifest_envelope check_bounds check_revoked check_ed25519 check_pqc
    is_pqc_required bytes_of not_all_zeros or_bytes and_bytes is_buffer_within
accepted = refl

missing : verify_manifest_envelope keys toy_signatures true (envelope 3) buffer ≡ not_found
unfolding verify_manifest_envelope check_bounds check_revoked check_ed25519
missing = refl

key_reads : KeyReadsFail keys
key_reads = record { key_read_fails = λ i e h. ground arith }

verify_manifest_envelope-accepts_example :
    (0 < 8)
    × (8 ≤ length buffer.content)
    × NotRevoked keys toy_signatures (envelope 0) buffer
    × Signed keys toy_signatures (envelope 0) buffer
    × (◌≡◌ {A = Bool} true true
        → PqcAsked keys toy_signatures (envelope 0) buffer
        → PqcSigned keys toy_signatures (envelope 0) buffer)
verify_manifest_envelope-accepts_example =
    verify_manifest_envelope-accepts keys toy_signatures (envelope 0) buffer true key_reads accepted
