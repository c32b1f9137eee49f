-- ===== src/Crc32/Tests.antt =====
-- Tests of the CRC, on its check value and on a flash that holds a ramp.
use toob_loader.Common.{
  ℕ, zero, suc, ◌+◌, ◌%◌, ◌≤◌, ◌≡◌, refl, ap, ◌∙◌, sym, List, [], ◌∷◌, length, take, drop,
}
use toob_loader.Common.{none, arith}
use toob_loader.Status.{ok_status, ok, stuck}
use toob_loader.Crc32.Ends.{flash_stream-ends}
use toob_loader.Common.{◌≢◌}
use toob_loader.Hal.{FlashHal, ReadsInParts}
use toob_loader.Crc32.{compute, flash_stream}
use toob_loader.Crc32.Stream.{flash_stream-eq-compute}

-- The check value of CRC-32 is that of the digits from 1 to 9.
compute-digits :
    compute (49 ∷ (50 ∷ (51 ∷ (52 ∷ (53 ∷ (54 ∷ (55 ∷ (56 ∷ (57 ∷ []))))))))) ≡ 0xcbf43926
unfolding compute
compute-digits = refl

-- Each byte is its address, cut to 8 bits.
abbrev ramp : ℕ → ℕ → List ℕ
ramp a zero = []
ramp a (suc n) = a % 256 ∷ ramp (a + 1) n

abbrev ramp_flash : FlashHal (Unit {0})
ramp_flash = record {
  read = λ s a n. ok (ramp a n);
  write = λ s a bs. (ok_status, s);
  erase_sector = λ s a. (ok_status, s);
  max_sector_size = 4096;
  max_erase_cycles = 0;
  write_align = 4;
  erased_value = 255;
  erase_time_us_max = 0;
  write_time_us_page = 0;
  get_supply_mv = none;
}

length-ramp : (a n : ℕ) → length (ramp a n) ≡ n
length-ramp a zero = refl
length-ramp a (suc n) = ap suc (length-ramp (a + 1) n)

take-ramp : (a n k : ℕ) → k ≤ n → ramp a k ≡ take k (ramp a n)
take-ramp a n zero h = refl
take-ramp a zero (suc k) h = absurd (omega arith)
take-ramp a (suc n) (suc k) h = ap (λ xs. a % 256 ∷ xs) (take-ramp (a + 1) n k (omega arith))

ramp_part : (a n off k : ℕ) → off + k ≤ n → ramp (a + off) k ≡ take k (drop off (ramp a n))
ramp_part a n zero k h = ap (λ b. ramp b k) (omega arith) ∙ take-ramp a n k (omega arith)
ramp_part a zero (suc off) k h = absurd (omega arith)
ramp_part a (suc n) (suc off) k h =
    ap (λ b. ramp b k) (omega arith) ∙ ramp_part (a + 1) n off k (omega arith)

ok_inj : {xs ys : List ℕ} → ok xs ≡ ok ys → xs ≡ ys
ok_inj h = cc

ramp_flash-ReadsInParts : ReadsInParts ramp_flash
ramp_flash-ReadsInParts = record {
  read-length = λ s a n xs h. ap length (ok_inj (sym h)) ∙ length-ramp a n;
  read_part = λ s a n xs off k h le.
      ap ok (ramp_part a n off k le ∙ ap (λ ys. take k (drop off ys)) (ok_inj h));
}

flash_stream-eq-compute_example :
    flash_stream ramp_flash tt 100 300 64 ≡ ok (compute (ramp 100 300))
flash_stream-eq-compute_example =
    flash_stream-eq-compute ramp_flash ramp_flash-ReadsInParts tt 100 300 64 (ramp 100 300) refl
      (omega arith) (omega arith)

flash_stream-ends_example : flash_stream ramp_flash tt 16 40 8 ≢ stuck
flash_stream-ends_example = flash_stream-ends ramp_flash tt (λ a n h. cc h) 16 40 8 (omega arith)
