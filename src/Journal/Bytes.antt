-- ===== src/Journal/Bytes.antt =====
-- A 32-bit number as its four bytes, and back.
use toob_loader.Common.{ℕ, suc, ◌+◌, ◌*◌, ◌/◌, ◌%◌, ◌^◌, ◌<◌, ◌≡◌, arith, ap, sym, ◌∙◌}
use toob_loader.Common.{List, [], ◌∷◌, ◌++◌, length, All, get_or}
use toob_loader.Journal.Wire.{u32_bytes}
use toob_loader.Tbm1.Layout.{u32_at}

pub u32_at-u32_bytes :
    (x : ℕ)
    → x < 2 ^ 32
    → x % 256 + 256 * (x / 256 % 256) + 65536 * (x / 65536 % 256 + 256 * (x / 16777216 % 256)) ≡ x
u32_at-u32_bytes x h = omega arith

pub u32_bytes-All :
    (x : ℕ) (ys : List ℕ) → All (λ b. b < 256) ys → All (λ b. b < 256) (u32_bytes x ++ ys)
u32_bytes-All x ys h = (omega arith, (omega arith, (omega arith, (omega arith, h))))

get_or-append : (xs ys : List ℕ) (i : ℕ) → get_or (xs ++ ys) (length xs + i) 0 ≡ get_or ys i 0
get_or-append [] ys i = ap (λ n. get_or ys n 0) {x = 0 + i} (omega arith)
get_or-append (x ∷ xs) ys i =
    ap (λ n. get_or (x ∷ (xs ++ ys)) n 0) {x = suc (length xs) + i} {y = suc (length xs + i)}
      (omega arith)
    ∙ get_or-append xs ys i

pub at_end : (xs ys : List ℕ) (m i : ℕ) → length xs + i ≡ m → get_or (xs ++ ys) m 0 ≡ get_or ys i 0
at_end xs ys m i e = ap (λ n. get_or (xs ++ ys) n 0) (sym e) ∙ get_or-append xs ys i

-- A number that stands behind `n` bytes.
pub u32_at-append :
    (xs : List ℕ) (x n : ℕ) (ys : List ℕ)
    → length xs ≡ n
    → x < 2 ^ 32
    → u32_at (xs ++ (u32_bytes x ++ ys)) n ≡ x
u32_at-append xs x n ys e h =
    rw
      (
        at_end xs (u32_bytes x ++ ys) n 0 (omega arith),
        at_end xs (u32_bytes x ++ ys) (n + 1) 1 (omega arith),
        at_end xs (u32_bytes x ++ ys) (n + 2) 2 (omega arith),
        at_end xs (u32_bytes x ++ ys) (n + 2 + 1) 3 (omega arith),
      )
      (u32_at-u32_bytes x h)
