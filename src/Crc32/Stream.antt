-- ===== src/Crc32/Stream.antt =====
-- The CRC of a flash range does not depend on how the range is cut into reads.
use toob_loader.Common.{ℕ, zero, suc, ◌+◌, ◌%◌, ◌^◌, ◌≤◌, ◌<◌, ◌≡◌, refl, ap, ◌∙◌, sym, arith}
use toob_loader.Common.{List, [], ◌∷◌, ◌++◌, length, take, drop, replicate, take-append-drop}
use toob_loader.Common.{Bool-cases, inl, inr, ltb, le→ltb_false, length-drop, bit_xor}
use toob_loader.Common.{ltb→lt, ltb_false→le}
use toob_loader.Status.{ok}
use toob_loader.Hal.{FlashHal, ReadsInParts}
use toob_loader.Crc32.{
  step_of, crc32_byte, crc_init, final_xor, update, compute, fill, stream_loop, flash_stream,
}

pub update-append : (xs ys : List ℕ) (crc : ℕ) → update crc (xs ++ ys) ≡ update (update crc xs) ys
unfolding update
update-append [] ys crc = refl
update-append (x ∷ xs) ys crc = update-append xs ys (crc32_byte crc x)

-- `boot_crc32_fill` gives the state that `boot_crc32_update` has after `len` bytes `val`.
pub fill-eq-update : (len crc val : ℕ) → fill crc val len ≡ update crc (replicate len val)
unfolding fill update
fill-eq-update zero crc val = refl
fill-eq-update (suc len) crc val = fill-eq-update len (crc32_byte crc val) val

drop-nil : (n : ℕ) → drop {A = ℕ} n [] ≡ []
drop-nil zero = refl
drop-nil (suc n) = refl

pub drop-drop : (m n : ℕ) (xs : List ℕ) → drop m (drop n xs) ≡ drop (n + m) xs
drop-drop m zero xs = ap (λ k. drop k xs) (omega arith)
drop-drop m (suc n) [] = drop-nil m ∙ sym (drop-nil (suc n + m))
drop-drop m (suc n) (x ∷ xs) = drop-drop m n xs ∙ ap (λ k. drop k (x ∷ xs)) longer
  where
    longer : suc (n + m) ≡ suc n + m
    longer = omega arith

parts :
    (n m c : ℕ) (xs : List ℕ)
    → update (update c (take m (drop n xs))) (drop (n + m) xs) ≡ update c (drop n xs)
parts n m c xs =
    rw (← drop-drop m n xs, ← update-append (take m (drop n xs)) (drop m (drop n xs)) c)
      (ap (update c) (take-append-drop m (drop n xs)))

-- A round's length, while something is left and the arena is not empty.
pub step_of_bounds :
    (arena_len len offset : ℕ)
    → 0 < arena_len
    → offset < len
    → (0 < step_of arena_len len offset) × (step_of arena_len len offset + offset ≤ len)
unfolding step_of
step_of_bounds arena_len len offset h k = ground arith

module _ {S : Type 0} (hal : FlashHal S) (laws : ReadsInParts hal) (s : S) (addr len arena_len : ℕ)
    (xs : List ℕ) (readable : hal.read s addr len ≡ ok xs) (room : 0 < arena_len)
    (in_space : addr + len < 2 ^ 32) where
  -- What a round reads.
  read_step :
      (offset : ℕ)
      → offset < len
      → let step = step_of arena_len len offset in
        hal.read s ((addr + offset % 2 ^ 32) % 2 ^ 32) (step % 2 ^ 32)
        ≡ ok (take step (drop offset xs))
  read_step offset h =
      rw (no_wrap, small)
        (laws.read_part s addr len xs offset (step_of arena_len len offset) readable
          (omega (arith, step_of_bounds arena_len len offset room h)))
    where
      no_wrap : (addr + offset % 2 ^ 32) % 2 ^ 32 ≡ addr + offset
      no_wrap = omega (arith, step_of_bounds arena_len len offset room h)

      small : step_of arena_len len offset % 2 ^ 32 ≡ step_of arena_len len offset
      small = omega (arith, step_of_bounds arena_len len offset room h)

  drop_all : (n : ℕ) → len ≤ n → drop n xs ≡ []
  drop_all n le =
      nothing (drop n xs) (omega (arith, length-drop n xs, laws.read-length s addr len xs readable))
    where
      nothing : (ys : List ℕ) → length ys ≡ 0 → ys ≡ []
      nothing [] e = refl
      nothing (y ∷ ys) e = absurd (omega arith)

  stream_loop_lem :
      (fuel offset crc : ℕ)
      → offset ≤ len
      → len ≤ offset + fuel
      → stream_loop hal fuel s addr len arena_len offset crc
        ≡ ok (bit_xor (update crc (drop offset xs)) final_xor)
  unfolding stream_loop
  stream_loop_lem zero offset crc h k =
      rw (le→ltb_false offset len (omega arith), drop_all offset (omega arith))
        (unfold update in refl)
  stream_loop_lem (suc fuel) offset crc h k = elim (Bool-cases (ltb offset len)) [
    | inr done ↦ rw (done, drop_all offset (ltb_false→le offset len done)) (unfold update in refl)
    | inl more ↦
        rw (more, read_step offset (ltb→lt offset len more))
          (stream_loop_lem fuel (offset + step_of arena_len len offset) _
              (omega (arith, step_of_bounds arena_len len offset room (ltb→lt offset len more)))
              (omega (arith, step_of_bounds arena_len len offset room (ltb→lt offset len more)))
            ∙ ap (λ c. ok (bit_xor c final_xor))
                (parts offset (step_of arena_len len offset) crc xs))
  ]

  -- `boot_crc32_flash_stream` over a readable range gives what `compute_boot_crc32` gives on its
  -- bytes, whatever the size of the arena it reads through, if this is not 0 and the range ends
  -- inside the 32-bit address space. The reads are those of a driver that reads in parts.
  pub flash_stream-eq-compute : flash_stream hal s addr len arena_len ≡ ok (compute xs)
  unfolding flash_stream compute
  flash_stream-eq-compute = stream_loop_lem len 0 crc_init (omega arith) (omega arith)
