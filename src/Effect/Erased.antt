-- ===== src/Effect/Erased.antt =====
-- The checksum that an erase is checked against.
use toob_loader.Common.{ℕ, ◌≡◌, ap, replicate, bit_xor}
use toob_loader.Crc32.{compute, crc_init, final_xor}
use toob_loader.Crc32.Stream.{fill-eq-update}
use toob_loader.Effect.{compute_erased_crc}

-- `boot_effect_compute_erased_crc` is the CRC-32 of a range that reads 0xFF everywhere, whatever byte the
-- flash driver gives as that of blank flash.
compute_erased_crc-compute : (len : ℕ) → compute_erased_crc len ≡ compute (replicate len 255)
unfolding compute_erased_crc compute
compute_erased_crc-compute len = ap (λ c. bit_xor c final_xor) (fill-eq-update len crc_init 255)
