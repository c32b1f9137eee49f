-- ===== src/Crc32/Ends.antt =====
-- `boot_crc32_flash_stream` ends.
use toob_loader.Common.{ℕ, zero, suc, ◌+◌, ◌%◌, ◌^◌, ◌≤◌, ◌<◌, ◌≢◌, inl, inr, arith}
use toob_loader.Common.{Bool-cases, ltb, ltb→lt, le→ltb_false}
use toob_loader.Status.{stuck, Result-cases}
use toob_loader.Hal.{FlashHal}
use toob_loader.Crc32.{step_of, crc_init, update, stream_loop, flash_stream}
use toob_loader.Crc32.Stream.{step_of_bounds}

module _ {S : Type 0} (hal : FlashHal S) (s : S)
    (returns : (a n : ℕ) → hal.read s a n ≢ stuck) where
  stream_loop-ends :
      (fuel addr len arena offset crc : ℕ)
      → 0 < arena
      → len ≤ offset + fuel
      → stream_loop hal fuel s addr len arena offset crc ≢ stuck
  unfolding stream_loop
  stream_loop-ends zero addr len arena offset crc room enough h =
      cc (rw (le→ltb_false offset len (omega arith)) at h)
  stream_loop-ends (suc fuel) addr len arena offset crc room enough h =
      let step = step_of arena len offset in
      let a = (addr + offset % 2 ^ 32) % 2 ^ 32 in
      elim (Bool-cases (ltb offset len)) [
        | inr b ↦ cc (rw b at h)
        | inl b ↦ elim (Result-cases (hal.read s a (step % 2 ^ 32))) [
          | inl (xs, r) ↦
              stream_loop-ends fuel addr len arena (offset + step) (update crc xs) room
                (omega (arith, step_of_bounds arena len offset room (ltb→lt offset len b)))
                (rw (b, r) at h)
          | inr (inl (c, r)) ↦ cc (rw (b, r) at h)
          | inr (inr r) ↦ returns a (step % 2 ^ 32) r
        ]
      ]

  -- With an arena that is not empty and a driver whose reads return, boot_crc32_flash_stream ends
  -- after at most one round for each byte of the range.
  pub flash_stream-ends :
      (addr len arena : ℕ) → 0 < arena → flash_stream hal s addr len arena ≢ stuck
  unfolding flash_stream
  flash_stream-ends addr len arena room =
      stream_loop-ends len addr len arena 0 crc_init room (omega arith)
