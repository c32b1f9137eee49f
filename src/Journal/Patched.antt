-- ===== src/Journal/Patched.antt =====
-- Which bytes of a TMR payload a patch, the chain tag and the epoch anchor leave alone.
use toob_loader.Common.{ℕ, zero, suc, ◌+◌, ◌-◌, ◌<◌, ◌≤◌, ◌^◌, ◌≡◌, refl, ap, ◌∙◌, arith}
use toob_loader.Common.{List, [], ◌∷◌, ◌++◌, length, take, drop, get_or, length-take}
use toob_loader.Common.{ltb, Bool-cases, inl, inr, Option, none, some}
use toob_loader.Status.{Result, ok, Result-cases}
use toob_loader.Hal.{FlashHal}
use toob_loader.Tbm1.Layout.{u32_at}
use toob_loader.Journal.{Sector}
use toob_loader.Journal.Wire.{u32_bytes}
use toob_loader.Journal.Bytes.{at_end, u32_at-append}
use toob_loader.Journal.Append.{with_chain_tag, no_tag, chain_count_of}
use toob_loader.Journal.UpdateTmr.{anchor}
use toob_loader.Journal.Migrate.{patch}

get_or-drop : (n i : ℕ) (xs : List ℕ) → get_or (drop n xs) i 0 ≡ get_or xs (n + i) 0
get_or-drop zero i xs = ap (λ k. get_or xs k 0) {y = 0 + i} (omega arith)
get_or-drop (suc n) i [] = refl
get_or-drop (suc n) i (x ∷ xs) =
    get_or-drop n i xs
    ∙ ap (λ k. get_or (x ∷ xs) k 0) {x = suc (n + i)} {y = suc n + i} (omega arith)

get_or-take_append :
    (n i : ℕ) (xs ys : List ℕ)
    → i < n
    → n ≤ length xs
    → get_or (take n xs ++ ys) i 0 ≡ get_or xs i 0
get_or-take_append zero i xs ys h k = absurd (omega arith)
get_or-take_append (suc n) i [] ys h k = absurd (omega arith)
get_or-take_append (suc n) zero (x ∷ xs) ys h k = refl
get_or-take_append (suc n) (suc i) (x ∷ xs) ys h k =
    get_or-take_append n i xs ys (omega arith) (omega arith)

-- A number in front of the bytes that a patch replaces.
pub u32_at-patch_below :
    (tmr : List ℕ) (o : ℕ) (bs : List ℕ) (n : ℕ)
    → o ≤ length tmr
    → n + 4 ≤ o
    → u32_at (patch tmr o bs) n ≡ u32_at tmr n
u32_at-patch_below tmr o bs n long below =
    let rest = bs ++ drop (o + length bs) tmr in
    rw
      (
        get_or-take_append o n tmr rest (omega arith) long,
        get_or-take_append o (n + 1) tmr rest (omega arith) long,
        get_or-take_append o (n + 2) tmr rest (omega arith) long,
        get_or-take_append o (n + 2 + 1) tmr rest (omega arith) long,
      )
      refl

-- The number that a patch puts in.
pub u32_at-patch :
    (tmr : List ℕ) (o x : ℕ)
    → o ≤ length tmr
    → x < 2 ^ 32
    → u32_at (patch tmr o (u32_bytes x)) o ≡ x
u32_at-patch tmr o x long small =
    u32_at-append (take o tmr) x o (drop (o + 4) tmr) (omega (arith, length-take o tmr)) small

-- Behind its 16 bytes at 56 a new chain tag leaves all as it was.
get_or-with_chain_tag :
    (tmr tag : List ℕ) (n : ℕ)
    → 56 ≤ length tmr
    → length tag ≡ 16
    → 72 ≤ n
    → get_or (with_chain_tag tmr tag) n 0 ≡ get_or tmr n 0
get_or-with_chain_tag tmr tag n long full behind =
    at_end (take 56 tmr) (tag ++ drop 72 tmr) n (n - 56) (omega (arith, length-take 56 tmr))
    ∙ at_end tag (drop 72 tmr) (n - 56) (n - 72) (omega arith)
    ∙ get_or-drop 72 (n - 72) tmr
    ∙ ap (λ k. get_or tmr k 0) {x = 72 + (n - 72)} (omega arith)

u32_at-with_chain_tag :
    (tmr tag : List ℕ) (n : ℕ)
    → 56 ≤ length tmr
    → length tag ≡ 16
    → 72 ≤ n
    → u32_at (with_chain_tag tmr tag) n ≡ u32_at tmr n
u32_at-with_chain_tag tmr tag n long full behind =
    rw
      (
        get_or-with_chain_tag tmr tag n long full behind,
        get_or-with_chain_tag tmr tag (n + 1) long full (omega arith),
        get_or-with_chain_tag tmr tag (n + 2) long full (omega arith),
        get_or-with_chain_tag tmr tag (n + 2 + 1) long full (omega arith),
      )
      refl

-- The anchor leaves what stands behind the chain tag alone.
module _ {S : Type 0} (hal : FlashHal S) (sectors : List Sector)
    (hash : List (List ℕ) → Result (List ℕ)) where
  pub u32_at-anchor :
      (key : Option (List ℕ)) (epoch : ℕ) (tmr : List ℕ) (n : ℕ)
      → 56 ≤ length tmr
      → 72 ≤ n
      → ((parts : List (List ℕ)) (digest : List ℕ) → hash parts ≡ ok digest → 16 ≤ length digest)
      → u32_at (anchor hal sectors hash key epoch tmr) n ≡ u32_at tmr n
  unfolding anchor
  u32_at-anchor none epoch tmr n long behind digests = refl
  u32_at-anchor (some key) epoch tmr n long behind digests =
      let parts = key ∷ (with_chain_tag tmr no_tag ∷ (u32_bytes epoch ∷ [])) in
      elim (Bool-cases (ltb 0 (chain_count_of tmr))) [
        | inr b ↦ rw b refl
        | inl b ↦ rw b (elim (Result-cases (hash parts)) [
          | inl (d, e) ↦ rw e (
              u32_at-with_chain_tag tmr (take 16 d) n long
                (omega (arith, length-take 16 d, digests parts d e)) behind)
          | inr (inl (code, e)) ↦ rw e (u32_at-with_chain_tag tmr no_tag n long refl behind)
          | inr (inr e) ↦ rw e (u32_at-with_chain_tag tmr no_tag n long refl behind)
        ])
      ]
