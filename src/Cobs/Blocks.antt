-- ===== src/Cobs/Blocks.antt =====
-- The blocks that `boot_cobs_send_frame` cuts its data into.
use toob_loader.Common.{ℕ, zero, suc, ◌+◌, ◌≤◌, ◌<◌, ◌≡◌, ◌≢◌, refl, ap, subst, arith, ltb, ◌==◌}
use toob_loader.Common.{not, ◌&&◌, Bool-cases, inl, inr, ◌⊎◌}
use toob_loader.Common.{List, [], ◌∷◌, ◌++◌, length, All, length-append, Option, none, some}
use toob_loader.Cobs.{scan_block, skip_zero, emit, send_blocks}

-- A byte that may stand inside a frame.
abbrev pub IsInner : ℕ → Type 0
IsInner x = (0 < x) × (x < 256)

-- What stopped a block: the end of the data, a zero, or its length.
abbrev pub Stops : ℕ → List ℕ → Type 0
Stops code [] = Unit
Stops code (x ∷ xs) = (x ≡ 0) ⊎ ((x ≢ 0) × (code ≡ 255))

-- A block and what is left make up the data, and the block's code is at most 0xff.
pub record IsBlock (items block rest : List ℕ) (code : ℕ) : Type 0 where
  pub whole : items ≡ block ++ rest
  pub short : code + length block ≤ 255
  pub inner : All (λ x. x < 256) items → All IsInner block
  pub stops : Stops (code + length block) rest

pub scan_block-IsBlock :
    (xs : List ℕ) (code : ℕ)
    → code ≤ 255
    → IsBlock xs (scan_block xs code).0 (scan_block xs code).1 code
unfolding scan_block
scan_block-IsBlock [] code h = record {
  whole = refl;
  short = omega arith;
  inner = λ _. tt;
  stops = tt;
}
scan_block-IsBlock (x ∷ xs) code h = elim (Bool-cases (not (x == 0) && ltb code 0xff)) [
  | inl more ↦ rw more (longer (scan_block-IsBlock xs (code + 1) (ground arith)) (ground arith))
  | inr stop ↦
      rw stop (record { whole = refl; short = omega arith; inner = λ _. tt; stops = ground arith })
]
  where
    longer : {b r : List ℕ} → IsBlock xs b r (code + 1) → 0 < x → IsBlock (x ∷ xs) (x ∷ b) r code
    longer {b} {r} ih pos = record {
      whole = ap (λ l. x ∷ l) ih.whole;
      short = omega (arith, ih.short);
      inner = λ (k, ks). ((pos, k), ih.inner ks);
      stops = subst (λ n. Stops n r) (omega arith) ih.stops;
    }

-- What a round leaves is at most what it was given, and less than a non-empty list.
pub skip_zero-cases :
    (x : ℕ) (xs : List ℕ)
    → ((x ≡ 0) × (skip_zero (x ∷ xs) ≡ xs)) ⊎ ((x ≢ 0) × (skip_zero (x ∷ xs) ≡ x ∷ xs))
unfolding skip_zero
skip_zero-cases x xs = ground arith

pub length-skip_zero : (xs : List ℕ) → length (skip_zero xs) ≤ length xs
unfolding skip_zero
length-skip_zero [] = omega arith
length-skip_zero (x ∷ xs) = ground arith

-- Each round consumes a byte: the zero that stopped it at once, or a block that is not empty.
pub round_shrinks : (x : ℕ) (xs : List ℕ) → length (skip_zero (scan_block (x ∷ xs) 1).1) ≤ length xs
unfolding skip_zero
round_shrinks x xs = shrink (scan_block-IsBlock (x ∷ xs) 1 (omega arith))
  where
    shrink : {b r : List ℕ} → IsBlock (x ∷ xs) b r 1 → length (skip_zero r) ≤ length xs
    shrink {b = []} {r = []} k = omega arith
    shrink {b = []} {r = y ∷ ys} k = elim k.stops [
      | inl z ↦ ground (arith, ap length k.whole)
      | inr (_, full) ↦ absurd (omega arith)
    ]
    shrink {b = c ∷ cs} {r} k =
        omega (arith, length-skip_zero r, ap length k.whole, length-append cs r)

-- The length of the data is fuel enough, and more fuel changes nothing.
pub send_blocks_total :
    (fuel : ℕ) (xs : List ℕ)
    → length xs ≤ fuel
    → (sent : List ℕ) × (send_blocks fuel xs ≡ some sent)
unfolding send_blocks emit
send_blocks_total zero [] h = ([], refl)
send_blocks_total (suc fuel) [] h = ([], refl)
send_blocks_total zero (x ∷ xs) h = absurd (omega arith)
send_blocks_total (suc fuel) (x ∷ xs) h = emit_total _ (
    send_blocks_total fuel (skip_zero (scan_block (x ∷ xs) 1).1)
      (omega (arith, round_shrinks x xs)))
  where
    emit_total :
        (o : Option (List ℕ))
        → (sent : List ℕ) × (o ≡ some sent)
        → (sent : List ℕ) × (emit (scan_block (x ∷ xs) 1).0 o ≡ some sent)
    emit_total o (sent, e) = (
      (length (scan_block (x ∷ xs) 1).0 + 1) ∷ ((scan_block (x ∷ xs) 1).0 ++ sent),
      ap (emit (scan_block (x ∷ xs) 1).0) e,
    )

pub send_blocks_fuel :
    (f g : ℕ) (xs : List ℕ) → length xs ≤ f → length xs ≤ g → send_blocks f xs ≡ send_blocks g xs
unfolding send_blocks emit
send_blocks_fuel zero zero [] hf hg = refl
send_blocks_fuel zero (suc g) [] hf hg = refl
send_blocks_fuel (suc f) zero [] hf hg = refl
send_blocks_fuel (suc f) (suc g) [] hf hg = refl
send_blocks_fuel zero g (x ∷ xs) hf hg = absurd (omega arith)
send_blocks_fuel (suc f) zero (x ∷ xs) hf hg = absurd (omega arith)
send_blocks_fuel (suc f) (suc g) (x ∷ xs) hf hg = ap (emit (scan_block (x ∷ xs) 1).0) (
    send_blocks_fuel f g (skip_zero (scan_block (x ∷ xs) 1).1) (omega (arith, round_shrinks x xs))
      (omega (arith, round_shrinks x xs)))

-- Inversion of a round that sends something.
pub emit-eq-some :
    (block : List ℕ) (o : Option (List ℕ)) {sent : List ℕ}
    → emit block o ≡ some sent
    → (later : List ℕ) × (o ≡ some later) × (sent ≡ (length block + 1) ∷ (block ++ later))
unfolding emit
emit-eq-some block none e = cc
emit-eq-some block (some later) e = (later, refl, (cc))
