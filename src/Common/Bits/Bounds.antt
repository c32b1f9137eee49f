-- ===== src/Common/Bits/Bounds.antt =====
-- How large `&` and `^` of two numbers of a width can be.
use Prim.Native.Nat.{ℕ, zero, suc, ◌+◌, ◌*◌, ◌/◌, ◌%◌, ◌^◌, ◌<◌, bit_and, bit_xor}
use Prim.Native.Nat.{differ, bit_xor-bitwise, bit_and-bitwise}
use native.Mathlib.Nat.{pow-suc}
use native.Mathlib.Omega.{arith}
use mathlib.Core.Path.{◌≡◌}
use toob_loader.Common.Bits.{lowest_digit, and_lowest}

xor_lowest : (x y : ℕ) → bit_xor x y ≡ differ (x % 2) (y % 2) + 2 * bit_xor (x / 2) (y / 2)
xor_lowest zero y = simp bit_xor-bitwise (omega arith)
xor_lowest (suc x) y = simp bit_xor-bitwise (lowest_digit (λ rest. rest) differ x y)

differ_small : (a b : ℕ) → a < 2 → b < 2 → differ a b < 2
differ_small zero b ha hb = hb
differ_small (suc a) zero ha hb = ha
differ_small (suc a) (suc b) ha hb = differ_small a b (omega arith) (omega arith)

pub bit_xor_bound : (w x y : ℕ) → x < 2 ^ w → y < 2 ^ w → bit_xor x y < 2 ^ w
bit_xor_bound zero zero zero hx hy = omega arith
bit_xor_bound zero zero (suc y) hx hy = absurd (omega arith)
bit_xor_bound zero (suc x) y hx hy = absurd (omega arith)
bit_xor_bound (suc w) x y hx hy = omega (
  arith,
  pow-suc 2 w,
  xor_lowest x y,
  differ_small (x % 2) (y % 2) (omega arith) (omega arith),
  bit_xor_bound w (x / 2) (y / 2) (omega (arith, pow-suc 2 w)) (omega (arith, pow-suc 2 w)),
)

pub bit_and_bound : (w x y : ℕ) → x < 2 ^ w → bit_and x y < 2 ^ w
bit_and_bound zero zero y hx = simp bit_and-bitwise (omega arith)
bit_and_bound zero (suc x) y hx = absurd (omega arith)
bit_and_bound (suc w) x y hx = omega (
  arith,
  pow-suc 2 w,
  and_lowest x y,
  bit_and_bound w (x / 2) (y / 2) (omega (arith, pow-suc 2 w)),
)
