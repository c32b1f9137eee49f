-- ===== src/Crc32.antt =====
-- toobloader/core/utils/boot_crc32.c: CRC-32 of buffers, of flash ranges and of runs of one byte.
mod Tests
pub mod Bounds
pub mod Stream
pub mod Ends
use toob_loader.Common.{ℕ, zero, suc, ◌+◌, ◌-◌, ◌/◌, ◌%◌, ◌^◌, bit_and, bit_xor, ltb, if◌then◌else◌}
use toob_loader.Common.{List, [], ◌∷◌}
use toob_loader.Status.{Result, ok, err, stuck}
use toob_loader.Hal.{FlashHal}

-- `TOOB_CRC32_POLY`, `TOOB_CRC32_INIT` and `TOOB_CRC32_FINAL_XOR`
abbrev pub poly : ℕ
poly = 0xEDB88320

abbrev pub crc_init : ℕ
crc_init = 0xFFFFFFFF

abbrev pub final_xor : ℕ
final_xor = 0xFFFFFFFF

-- `crc = (crc >> 1) ^ (TOOB_CRC32_POLY & (-(crc & 1)))`
unfoldable pub crc32_bit : ℕ → ℕ
crc32_bit crc = bit_xor (crc / 2) (bit_and poly ((2 ^ 32 - bit_and crc 1) % 2 ^ 32))

unfoldable pub crc32_bits : ℕ → ℕ → ℕ
unfolding crc32_bit
crc32_bits zero crc = crc
crc32_bits (suc n) crc = crc32_bits n (crc32_bit crc)

unfoldable pub crc32_byte : ℕ → ℕ → ℕ
unfolding crc32_bits
crc32_byte crc val = crc32_bits 8 (bit_xor crc val)

unfoldable pub update : ℕ → List ℕ → ℕ
unfolding crc32_byte
update crc [] = crc
update crc (x ∷ xs) = update (crc32_byte crc x) xs

-- `compute_boot_crc32`
unfoldable pub compute : List ℕ → ℕ
unfolding update
compute xs = bit_xor (update crc_init xs) final_xor

-- `boot_crc32_fill`
unfoldable pub fill : ℕ → ℕ → ℕ → ℕ
unfolding crc32_byte
fill crc val zero = crc
fill crc val (suc len) = fill (crc32_byte crc val) val len

-- `(len - offset > arena_len) ? arena_len : (len - offset)`
unfoldable pub step_of : ℕ → ℕ → ℕ → ℕ
step_of arena_len len offset = if ltb arena_len (len - offset) then arena_len else len - offset

-- The loop of `boot_crc32_flash_stream` from `offset` on. With an empty arena it would never end.
module _ {S : Type 0} (hal : FlashHal S) where
  unfoldable pub stream_loop : ℕ → S → ℕ → ℕ → ℕ → ℕ → ℕ → Result ℕ
  unfolding step_of
  stream_loop zero s addr len arena_len offset crc =
      if ltb offset len then stuck else ok (bit_xor crc final_xor)
  stream_loop (suc fuel) s addr len arena_len offset crc =
      let step = step_of arena_len len offset in
      let round : Result ℕ = elim (hal.read s ((addr + offset % 2 ^ 32) % 2 ^ 32) (step % 2 ^ 32)) [
        | ok xs ↦ stream_loop fuel s addr len arena_len (offset + step) (update crc xs)
        | err e ↦ err e
        | stuck ↦ stuck
      ] in
      if ltb offset len then round else ok (bit_xor crc final_xor)

  -- `boot_crc32_flash_stream`. Each round moves on by a byte, so that `len` is fuel enough.
  unfoldable pub flash_stream : S → ℕ → ℕ → ℕ → Result ℕ
  unfolding stream_loop
  flash_stream s addr len arena_len = stream_loop len s addr len arena_len 0 crc_init
