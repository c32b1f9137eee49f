-- ===== src/Common/Bits.antt =====
-- `&` and `|` at variables, from the digits that they stand for: low masks, and sets of small
-- numbers held as the bits of one number.
pub mod Bounds
use Prim.Native.Nat.{ℕ, zero, suc, ◌+◌, ◌*◌, ◌/◌, ◌%◌, ◌^◌, ◌≤◌, ◌<◌, min, max, bit_and, bit_or}
use Prim.Native.Nat.{digits, bitwise, bit_and-bitwise, bit_or-bitwise}
use native.Mathlib.Nat.{pow-suc}
use native.Mathlib.Omega.{arith}
use mathlib.Core.Path.{◌≡◌, refl, ap, ◌∙◌}
use native.Mathlib.Decide.{dec_lt}
use mathlib.Core.Logic.{◌≢◌}

-- One more unit of fuel than needed changes nothing, and so no surplus does.
module _ (at_end : ℕ → ℕ) (join : ℕ → ℕ → ℕ) where
  one_spare :
      (fuel x y : ℕ) → x ≤ fuel → digits at_end join (suc fuel) x y ≡ digits at_end join fuel x y
  one_spare zero zero y h = refl
  one_spare (suc fuel) zero y h = refl
  one_spare zero (suc x) y h = absurd (omega arith)
  one_spare (suc fuel) (suc x) y h = rw (one_spare fuel (suc x / 2) (y / 2) (omega arith)) refl

  spare :
      (more x y : ℕ) (fuel : ℕ)
      → x ≤ fuel
      → fuel ≤ more
      → digits at_end join more x y ≡ digits at_end join fuel x y
  spare zero x y fuel h k = ap (λ n. digits at_end join n x y) {x = 0} (omega arith)
  spare (suc more) x y fuel h k = elim (dec_lt more fuel) [
    | yes last ↦ ap (λ n. digits at_end join n x y) {x = suc more} (omega arith)
    | no lower ↦ one_spare more x y (omega arith) ∙ spare more x y fuel h (omega arith)
  ]

  pub lowest_digit :
      (x y : ℕ)
      → bitwise at_end join (suc x) y
        ≡ join (suc x % 2) (y % 2) + 2 * bitwise at_end join (suc x / 2) (y / 2)
  lowest_digit x y =
      omega (arith, spare x (suc x / 2) (y / 2) (suc x / 2) (omega arith) (omega arith))

-- The lowest bit of each operation stands apart from the rest.
or_lowest : (x y : ℕ) → bit_or x y ≡ max (x % 2) (y % 2) + 2 * bit_or (x / 2) (y / 2)
or_lowest zero y = simp bit_or-bitwise (omega arith)
or_lowest (suc x) y = simp bit_or-bitwise (lowest_digit (λ rest. rest) max x y)

pub and_lowest : (x y : ℕ) → bit_and x y ≡ min (x % 2) (y % 2) + 2 * bit_and (x / 2) (y / 2)
and_lowest zero y = simp bit_and-bitwise (omega arith)
and_lowest (suc x) y = simp bit_and-bitwise (lowest_digit (λ rest. 0) min x y)

-- The values of masks without a bit, and of those with the lowest ones.
empty_mask : (bound x : ℕ) → x < bound → bit_and x 0 ≡ 0
empty_mask zero x h = absurd (omega arith)
empty_mask (suc bound) zero h = refl
empty_mask (suc bound) (suc x) h =
    omega (arith, and_lowest (suc x) 0, empty_mask bound (suc x / 2) (omega arith))

mask_one : (x : ℕ) → bit_and x 1 ≡ x % 2
mask_one x = omega (arith, and_lowest x 1, empty_mask (x + 1) (x / 2) (omega arith))

mask_three : (x : ℕ) → bit_and x 3 ≡ x % 4
mask_three x = omega (arith, and_lowest x 3, mask_one (x / 2))

pub bit_and_seven : (x : ℕ) → bit_and x 7 ≡ x % 8
bit_and_seven x = omega (arith, and_lowest x 7, mask_three (x / 2))

half : (i : ℕ) → 2 ^ suc i / 2 ≡ 2 ^ i
half i = omega (arith, pow-suc 2 i)

even : (i : ℕ) → 2 ^ suc i % 2 ≡ 0
even i = omega (arith, pow-suc 2 i)

bit_test_suc : (s i : ℕ) → bit_and s (2 ^ suc i) ≡ bit_and (s / 2) (2 ^ i) * 2
bit_test_suc s i = and_lowest s (2 ^ suc i) ∙ rw (half i, even i) (omega arith)

bit_set_suc : (s i : ℕ) → bit_or s (2 ^ suc i) ≡ bit_or (s / 2) (2 ^ i) * 2 + s % 2
bit_set_suc s i = or_lowest s (2 ^ suc i) ∙ rw (half i, even i) (omega arith)

-- The bits above the lowest one, after bit `suc j` is set.
set_suc_half : (s j : ℕ) → bit_or s (2 ^ suc j) / 2 ≡ bit_or (s / 2) (2 ^ j)
set_suc_half s j = omega (arith, bit_set_suc s j)

nothing_set : (bound x : ℕ) → x < bound → bit_or x 0 ≡ x
nothing_set zero x h = absurd (omega arith)
nothing_set (suc bound) zero h = refl
nothing_set (suc bound) (suc x) h =
    omega (arith, or_lowest (suc x) 0, nothing_set bound (suc x / 2) (omega arith))

bit_or-one : (s : ℕ) → bit_or s 1 ≡ s / 2 * 2 + 1
bit_or-one s = omega (arith, or_lowest s 1, nothing_set (s + 1) (s / 2) (omega arith))

-- `|= 1 << i` sets bit `i`.
pub bit_test-set_self : (s i : ℕ) → bit_and (bit_or s (2 ^ i)) (2 ^ i) ≢ 0
bit_test-set_self s zero = omega (arith, mask_one (bit_or s 1), bit_or-one s)
bit_test-set_self s (suc i) =
    rw (bit_test_suc, set_suc_half) (omega (arith, bit_test-set_self (s / 2) i))

-- A bit that is set stays set.
pub bit_test-set : (s i j : ℕ) → bit_and s (2 ^ i) ≢ 0 → bit_and (bit_or s (2 ^ j)) (2 ^ i) ≢ 0
bit_test-set s zero zero h = omega (arith, mask_one (bit_or s 1), bit_or-one s)
bit_test-set s zero (suc j) h =
    omega (arith, h, mask_one s, mask_one (bit_or s (2 ^ suc j)), bit_set_suc s j)
bit_test-set s (suc i) zero h = rw (bit_or-one, bit_test_suc, same) (rw bit_test_suc at h)
  where
    same : (s / 2 * 2 + 1) / 2 ≡ s / 2
    same = omega arith
bit_test-set s (suc i) (suc j) h =
    rw (bit_test_suc, set_suc_half)
      (λ z.
        bit_test-set (s / 2) i j (λ e. h (bit_test_suc s i ∙ omega (arith, e))) (omega (arith, z)))
