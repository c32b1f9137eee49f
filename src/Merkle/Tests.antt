-- ===== src/Merkle/Tests.antt =====
-- An instance of the theorem on accepted images.
use toob_loader.Common.{
  ℕ, ◌+◌, ◌-◌, ◌*◌, ◌<◌, ◌≡◌, refl, List, [], ◌∷◌, ◌++◌, take, drop, replicate,
}
use toob_loader.Status.{ok_status, ok, err, crypto}
use toob_loader.Hal.{CryptoHal}
use toob_loader.Journal.{same_bytes}
use toob_loader.Journal.Samples.{memory}
use toob_loader.Merkle.{
  hash_len, required_chunks, read_len, verify_stream, check_arguments, chunk_loop,
}
use toob_loader.Merkle.Accepted.{ErrorsFail, IsHashed, verify_stream-IsHashed}

abbrev first_part : List (List ℕ) → List ℕ
first_part [] = []
first_part (part ∷ parts) = part

-- A digest that is the start of the message, filled up with zeroes.
abbrev prefix_crypto : CryptoHal
prefix_crypto = record {
  read_chip_uid = err crypto;
  read_pubkey = λ i. err crypto;
  hash = λ parts. ok (take 32 (first_part parts ++ replicate 32 0));
}

abbrev image : List ℕ
image = replicate 16 5 ++ replicate 4 6

abbrev hashes : List ℕ
hashes = (replicate 16 5 ++ replicate 16 0) ++ (replicate 4 6 ++ replicate 28 0)

no_errors : ErrorsFail memory prefix_crypto
no_errors = record {
  read_fails = λ s a n e h. absurd (cc h);
  hash_fails = λ parts e h. absurd (cc h);
}

accepted : verify_stream memory prefix_crypto image 0 20 16 0 hashes 2 64 ≡ ok_status
unfolding verify_stream check_arguments chunk_loop same_bytes
accepted = refl

verify_stream-IsHashed_example :
    (2 ≡ required_chunks 20 16)
    × ((i : ℕ)
        → i * 16 < 20
        → IsHashed memory prefix_crypto image
            (0 + i * 16)
            (read_len (20 - i * 16) 16)
            (drop (i * hash_len) hashes))
verify_stream-IsHashed_example =
    verify_stream-IsHashed memory prefix_crypto no_errors image 0 20 16 0 hashes 2 64 accepted
