-- ===== src/Crc32/Bounds.antt =====
-- A CRC is a 32-bit number.
use toob_loader.Common.{ℕ, zero, suc, ◌^◌, ◌<◌, List, [], ◌∷◌, All, arith, bit_xor}
use toob_loader.Common.{◌/◌}
use toob_loader.Common.Bits.Bounds.{bit_xor_bound, bit_and_bound}
use toob_loader.Crc32.{
  poly, crc_init, final_xor, crc32_bit, crc32_bits, crc32_byte, update, compute,
}

crc32_bit_small : (crc : ℕ) → crc < 2 ^ 32 → crc32_bit crc < 2 ^ 32
unfolding crc32_bit
crc32_bit_small crc h =
    bit_xor_bound 32 (crc / 2) _ (omega arith) (bit_and_bound 32 poly _ (omega arith))

crc32_bits_small : (n crc : ℕ) → crc < 2 ^ 32 → crc32_bits n crc < 2 ^ 32
unfolding crc32_bits
crc32_bits_small zero crc h = h
crc32_bits_small (suc n) crc h = crc32_bits_small n (crc32_bit crc) (crc32_bit_small crc h)

pub update_small :
    (crc : ℕ) (xs : List ℕ) → crc < 2 ^ 32 → All (λ x. x < 256) xs → update crc xs < 2 ^ 32
unfolding update crc32_byte
update_small crc [] h hs = h
update_small crc (x ∷ xs) h (hx, hs) =
    update_small (crc32_byte crc x) xs
      (crc32_bits_small 8 (bit_xor crc x) (bit_xor_bound 32 crc x h (omega arith))) hs

-- The CRC of a buffer of bytes is below 2 ^ 32.
pub compute_small : (xs : List ℕ) → All (λ x. x < 256) xs → compute xs < 2 ^ 32
unfolding compute
compute_small xs hs =
    bit_xor_bound 32 _ final_xor (update_small crc_init xs (omega arith) hs) (omega arith)
