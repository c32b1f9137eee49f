-- ===== src/Journal/Sequence.antt =====
-- `is_newer_sequence`: the order of 32-bit sequence numbers that wrap around.
use toob_loader.Common.{ℕ, ◌+◌, ◌%◌, ◌^◌, ◌<◌, ◌≤◌, ◌≡◌, ◌≢◌, true, not, arith}
use toob_loader.Journal.{is_newer_sequence}

-- Of two different 32-bit sequence numbers exactly one is newer than the other, also where they are
-- half the range apart.
is_newer_sequence-flip :
    (a b : ℕ)
    → a < 2 ^ 32
    → b < 2 ^ 32
    → a ≢ b
    → is_newer_sequence a b ≡ not (is_newer_sequence b a)
unfolding is_newer_sequence
is_newer_sequence-flip a b ha hb ne = ground arith

-- A sequence number that is at least 1 and less than 2 ^ 31 steps ahead of another is the newer one, also where the
-- counter has wrapped around in between.
is_newer_sequence-ahead :
    (a d : ℕ) → a < 2 ^ 32 → 1 ≤ d → d < 2 ^ 31 → is_newer_sequence ((a + d) % 2 ^ 32) a ≡ true
unfolding is_newer_sequence
is_newer_sequence-ahead a d ha pos small = ground arith
