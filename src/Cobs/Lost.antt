-- ===== src/Cobs/Lost.antt =====
-- The payloads that do not come back: a zero at the end, or behind a full block, is not sent.
use toob_loader.Common.{ℕ, zero, suc, ◌+◌, ◌≤◌, ◌≡◌, refl, ap, ap₂, ◌∙◌, arith}
use toob_loader.Common.{Bool, true, false, not, ◌&&◌, ltb, ◌==◌, Bool-cases, inl, inr, ◌⊎◌}
use toob_loader.Common.{List, [], ◌∷◌, ◌++◌, length, length-append}
use toob_loader.Cobs.{scan_block, skip_zero, emit, send_blocks, between_markers, send_frame}
use toob_loader.Cobs.Blocks.{send_blocks_fuel, round_shrinks}

-- The last byte of a list is there and is not a zero.
abbrev pub ends_nonzero : List ℕ → Bool
ends_nonzero [] = false
ends_nonzero (x ∷ []) = not (x == 0)
ends_nonzero (x ∷ (y ∷ ys)) = ends_nonzero (y ∷ ys)

-- A zero stops a block wherever it stands.
scan_block-append_zero :
    (xs : List ℕ) (code : ℕ)
    → ((scan_block (xs ++ (0 ∷ [])) code).0 ≡ (scan_block xs code).0)
      × ((scan_block (xs ++ (0 ∷ [])) code).1 ≡ (scan_block xs code).1 ++ (0 ∷ []))
unfolding scan_block
scan_block-append_zero [] code = (refl, refl)
scan_block-append_zero (x ∷ xs) code = elim (Bool-cases (not (x == 0) && ltb code 0xff)) [
  | inl more ↦ rw more (
    ap (λ l. x ∷ l) (scan_block-append_zero xs (code + 1)).0,
    (scan_block-append_zero xs (code + 1)).1,
  )
  | inr stop ↦ rw stop (refl, refl)
]

-- What a block leaves of such a list is nothing or such a list.
scan_block-ends :
    (xs : List ℕ) (code : ℕ)
    → ends_nonzero xs ≡ true
    → ((scan_block xs code).1 ≡ []) ⊎ (ends_nonzero (scan_block xs code).1 ≡ true)
unfolding scan_block
scan_block-ends [] code h = inl refl
scan_block-ends (x ∷ []) code h = ground arith
scan_block-ends (x ∷ (y ∷ ys)) code h = ground (arith, scan_block-ends (y ∷ ys) (code + 1) h)

skip_zero-append :
    (r : List ℕ)
    → ends_nonzero r ≡ true
    → (skip_zero (r ++ (0 ∷ [])) ≡ skip_zero r ++ (0 ∷ [])) × (ends_nonzero (skip_zero r) ≡ true)
unfolding skip_zero
skip_zero-append [] h = cc
skip_zero-append (x ∷ []) h = ground arith
skip_zero-append (x ∷ (y ∷ ys)) h = ground arith

send_blocks-append_zero :
    (f g : ℕ) (xs : List ℕ)
    → length xs + 1 ≤ f
    → length xs ≤ g
    → ends_nonzero xs ≡ true
    → send_blocks f (xs ++ (0 ∷ [])) ≡ send_blocks g xs
unfolding send_blocks
send_blocks-append_zero f g [] hf hg h = cc
send_blocks-append_zero zero g (x ∷ xs) hf hg h = absurd (omega arith)
send_blocks-append_zero (suc f) zero (x ∷ xs) hf hg h = absurd (omega arith)
send_blocks-append_zero (suc f) (suc g) (x ∷ xs) hf hg h =
    ap₂ emit (scan_block-append_zero (x ∷ xs) 1).0 (
      ap (λ r. send_blocks f (skip_zero r)) (scan_block-append_zero (x ∷ xs) 1).1
      ∙ elim (scan_block-ends (x ∷ xs) 1 h) [
        | inl e ↦ rw e (unfold skip_zero in send_blocks_fuel f g [] (omega arith) (omega arith))
        | inr e ↦ rw (skip_zero-append _ e).0 (
            send_blocks-append_zero f g (skip_zero (scan_block (x ∷ xs) 1).1)
              (omega (arith, round_shrinks x xs)) (omega (arith, round_shrinks x xs))
              (skip_zero-append _ e).1)
      ])

-- A payload that ends in a byte other than zero, and that payload with a zero behind it, are sent as
-- one and the same frame: no receiver can tell them apart.
pub send_frame-append_zero :
    (xs : List ℕ) → ends_nonzero xs ≡ true → send_frame (xs ++ (0 ∷ [])) ≡ send_frame xs
unfolding send_frame
send_frame-append_zero [] h = cc
send_frame-append_zero (x ∷ xs) h = ap between_markers (
    send_blocks-append_zero (length ((x ∷ xs) ++ (0 ∷ []))) (length (x ∷ xs)) (x ∷ xs)
      (omega (arith, length-append (x ∷ xs) (0 ∷ []))) (omega arith) h)
