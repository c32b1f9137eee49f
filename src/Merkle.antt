-- ===== src/Merkle.antt =====
-- toobloader/core/utils/boot_merkle.c: an image in flash, checked chunk by chunk against the hashes of
-- its signed manifest. The pointers and the driver's function pointers are taken to be present.
mod Tests
pub mod Accepted
use toob_loader.Common.{ℕ, zero, suc, ◌+◌, ◌-◌, ◌*◌, ◌/◌, ◌%◌, ◌^◌, Bool, not, ◌&&◌, ◌||◌}
use toob_loader.Common.{ltb, ◌==◌, if◌then◌else◌, List, [], ◌∷◌, length, take, drop}
use toob_loader.Status.{
  Status, ok_status, invalid_arg, flash_bounds, verify, is_ok, Result, ok, err, stuck,
}
use toob_loader.Hal.{FlashHal, CryptoHal}
use toob_loader.Journal.{same_bytes}

-- `BOOT_MERKLE_HASH_LEN` and `UINT32_MAX`
abbrev pub hash_len : ℕ
hash_len = 32

abbrev pub uint32_max : ℕ
uint32_max = 4294967295

-- The chunks that an image takes.
unfoldable pub required_chunks : ℕ → ℕ → ℕ
required_chunks image_size chunk_size =
    image_size / chunk_size + (if ltb 0 (image_size % chunk_size) then 1 else 0)

-- `(remaining_bytes < chunk_size) ? remaining_bytes : chunk_size`
unfoldable pub read_len : ℕ → ℕ → ℕ
read_len remaining chunk_size = if ltb remaining chunk_size then remaining else chunk_size

-- The comparison of a digest with the next hash of the list.
unfoldable pub check_digest : Result (List ℕ) → List ℕ → Status
check_digest (ok digest) hashes =
    if length digest == hash_len
    then if same_bytes digest (take hash_len hashes) then ok_status else verify
    else verify
check_digest (err e) hashes = e
check_digest stuck hashes = verify

module _ {S : Type 0} (hal : FlashHal S) (crypto : CryptoHal) where
  -- The guards in front of the loop. `chunk_hashes` is the address of the list.
  unfoldable pub check_arguments : ℕ → ℕ → ℕ → ℕ → ℕ → ℕ → ℕ → Status
  unfolding required_chunks
  check_arguments addr image_size chunk_size chunk_hashes hashes_len num_chunks arena_size =
      if image_size == 0 || chunk_size == 0 || num_chunks == 0 || arena_size == 0 || hashes_len == 0
      then invalid_arg
      else if ltb (uint32_max - addr) image_size
      then flash_bounds
      else if ltb (uint32_max / chunk_size) num_chunks
      then invalid_arg
      else if ltb (uint32_max / hash_len) num_chunks
      then invalid_arg
      else if ltb hashes_len (num_chunks * hash_len)
      then invalid_arg
      else if ltb (uint32_max - num_chunks * hash_len) chunk_hashes
      then invalid_arg
      else if ltb hal.max_sector_size chunk_size
      then invalid_arg
      else if ltb 0 hal.write_align && not (chunk_size % hal.write_align == 0)
      then invalid_arg
      else if ltb arena_size chunk_size
      then invalid_arg
      else if num_chunks == required_chunks image_size chunk_size
      then ok_status
      else verify

  -- The digest of one chunk.
  unfoldable pub check_chunk : S → ℕ → ℕ → List ℕ → Status
  unfolding check_digest
  check_chunk s addr len hashes = elim (hal.read s addr len) [
    | ok bs ↦ check_digest (crypto.hash (bs ∷ [])) hashes
    | err e ↦ e
    | stuck ↦ verify
  ]

  -- The loop over the chunks, with the test on what remains behind it.
  unfoldable pub chunk_loop : ℕ → S → ℕ → ℕ → ℕ → List ℕ → Status
  unfolding check_chunk read_len
  chunk_loop zero s addr remaining chunk_size hashes = if remaining == 0 then ok_status else verify
  chunk_loop (suc chunks) s addr remaining chunk_size hashes =
      let len = read_len remaining chunk_size in
      let later =
        chunk_loop chunks s (addr + len) (remaining - len) chunk_size (drop hash_len hashes) in
      let code = check_chunk s addr len hashes in if is_ok code then later else code

  -- `boot_merkle_verify_stream`
  unfoldable pub verify_stream : S → ℕ → ℕ → ℕ → ℕ → List ℕ → ℕ → ℕ → Status
  verify_stream s addr image_size chunk_size chunk_hashes hashes num_chunks arena_size =
      let code =
        check_arguments addr image_size chunk_size chunk_hashes (length hashes) num_chunks
          arena_size in
      let rest = chunk_loop num_chunks s addr image_size chunk_size hashes in
      if is_ok code then rest else code
