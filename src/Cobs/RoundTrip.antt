-- ===== src/Cobs/RoundTrip.antt =====
-- Decoding what was sent: the payloads that come back, and those that do not.
use toob_loader.Common.{ℕ, zero, suc, ◌+◌, ◌-◌, ◌≤◌, ◌<◌, ◌≡◌, refl, ap, subst, ◌∙◌, sym}
use toob_loader.Common.{Bool, true, false, not, ◌&&◌, inl, inr, if◌then◌else◌, arith}
use toob_loader.Common.{
  List, [], ◌∷◌, ◌++◌, length, All, length-append, All-append, All-append_right,
}
use toob_loader.Common.{take-append, drop-append, ltb, ◌==◌, some}
use toob_loader.Status.{ok}
use toob_loader.Cobs.{scan_block, skip_zero, send_blocks}
use toob_loader.Cobs.Reference.{join, between, nonempty}
use toob_loader.Cobs.Reference
use toob_loader.Cobs.Blocks.{
  IsBlock, Stops, IsInner, scan_block-IsBlock, skip_zero-cases, emit-eq-some,
}
use toob_loader.Common.{le→ltb_false}

-- The payloads that survive: no zero is the last byte, and no zero follows a full block. The number
-- is the code that the block has reached.
unfoldable pub survives : ℕ → List ℕ → Bool
survives code [] = true
survives code (x ∷ xs) =
    let zero_case = nonempty xs && not (code == 255) && survives 1 xs in
    let other = survives (if code == 255 then 2 else code + 1) xs in
    if x == 0 then zero_case else other

-- A block's bytes move the code on.
survives-append :
    (block rest : List ℕ) (code : ℕ)
    → All IsInner block
    → code + length block ≤ 255
    → survives code (block ++ rest) ≡ survives (code + length block) rest
unfolding survives
survives-append [] rest code h k = ap (λ n. survives n rest) (omega arith)
survives-append (x ∷ block) rest code ((hx, hx'), h) k =
    ground (arith, survives-append block rest (code + 1) h (omega arith))

-- The list decoder on one block and what follows it.
decode_block :
    (g : ℕ) (block sent tail : List ℕ)
    → Reference.decode g sent ≡ ok tail
    → Reference.decode (suc g) ((length block + 1) ∷ (block ++ sent))
      ≡ ok (block ++ between (length block + 1) sent tail)
unfolding Reference.decode join
decode_block g block sent tail e = rw (not_zero, code, long, drop-append, e) joined
  where
    code : length block + 1 - 1 ≡ length block
    code = omega arith

    not_zero : (length block + 1 == 0) ≡ false
    not_zero = ground arith

    long : ltb (length (block ++ sent)) (length block) ≡ false
    long = le→ltb_false _ _ (omega (arith, length-append block sent))

    joined :
        join (length block + 1) (block ++ sent) (ok tail)
        ≡ ok (block ++ between (length block + 1) sent tail)
    joined = rw (join, code, take-append, drop-append) refl

-- What the sender owes the decoder of a payload.
pub record Decodes (xs sent : List ℕ) : Type 0 where
  pub decoded : (g : ℕ) → length sent ≤ g → Reference.decode g sent ≡ ok xs
  pub inner : All IsInner sent
  pub same : nonempty sent ≡ nonempty xs

-- What is left after a block survives if the whole does.
survives-skip_zero :
    (block rest : List ℕ)
    → Stops (1 + length block) rest
    → survives (1 + length block) rest ≡ true
    → survives 1 (skip_zero rest) ≡ true
unfolding survives skip_zero
survives-skip_zero block [] st sv = refl
survives-skip_zero block (x ∷ xs) (inl z) sv = ground arith
survives-skip_zero block (x ∷ xs) (inr (nz, full)) sv = ground arith

-- The zero that a block consumed comes back, and nothing else does.
between_lem :
    (block rest sent : List ℕ)
    → 1 + length block ≤ 255
    → Stops (1 + length block) rest
    → survives (1 + length block) rest ≡ true
    → nonempty sent ≡ nonempty (skip_zero rest)
    → between (length block + 1) sent (skip_zero rest) ≡ rest
unfolding survives skip_zero
between_lem block [] (y ∷ ys) k st sv ne = cc
between_lem block [] [] k st sv ne = ground arith
between_lem block (x ∷ xs) sent k (inl z) sv ne = ground arith
between_lem block (x ∷ xs) sent k (inr (nz, full)) sv ne = ground arith

All-skip_zero : (xs : List ℕ) → All (λ x. x < 256) xs → All (λ x. x < 256) (skip_zero xs)
unfolding skip_zero
All-skip_zero [] h = tt
All-skip_zero (x ∷ xs) h = elim (skip_zero-cases x xs) [
  | inl (z, e) ↦ rw e h.1
  | inr (nz, e) ↦ rw e h
]

-- One block of a payload that survives, in front of later blocks that decode.
module _ {xs block rest : List ℕ} (b : IsBlock xs block rest 1) (sv : survives 1 xs ≡ true)
    (small : All (λ x. x < 256) xs) where
  rest-survives : survives (1 + length block) rest ≡ true
  rest-survives =
      sym (survives-append block rest 1 (b.inner small) b.short)
      ∙ ap (λ l. survives 1 l) (sym b.whole)
      ∙ sv

  left-survives : survives 1 (skip_zero rest) ≡ true
  left-survives = survives-skip_zero block rest b.stops rest-survives

  left-small : All (λ x. x < 256) (skip_zero rest)
  left-small =
      All-skip_zero rest
        (All-append_right (λ x. x < 256) block rest (subst (All (λ x. x < 256)) b.whole small))

  block-Decodes :
      (later : List ℕ)
      → nonempty xs ≡ true
      → Decodes (skip_zero rest) later
      → Decodes xs ((length block + 1) ∷ (block ++ later))
  block-Decodes later ne d = record {
    decoded = from_fuel;
    inner = (
      (omega arith, omega (arith, b.short)),
      All-append IsInner block later (b.inner small) d.inner,
    );
    same = sym ne;
  }
    where
      from_fuel :
          (g : ℕ)
          → length ((length block + 1) ∷ (block ++ later)) ≤ g
          → Reference.decode g ((length block + 1) ∷ (block ++ later)) ≡ ok xs
      from_fuel zero h = absurd (omega arith)
      from_fuel (suc g) h =
          decode_block g block later (skip_zero rest)
            (d.decoded g (omega (arith, length-append block later)))
          ∙ ap (λ l. ok (block ++ l))
              (between_lem block rest later b.short b.stops rest-survives d.same)
          ∙ ap ok (sym b.whole)

nothing-Decodes : Decodes [] []
nothing-Decodes = record { decoded = λ g _. decode-nil g; inner = tt; same = refl }
  where
    decode-nil : (g : ℕ) → Reference.decode g [] ≡ ok []
    decode-nil zero = unfold Reference.decode in refl
    decode-nil (suc g) = unfold Reference.decode in refl

pub send_blocks-Decodes :
    (f : ℕ) (xs sent : List ℕ)
    → send_blocks f xs ≡ some sent
    → survives 1 xs ≡ true
    → All (λ x. x < 256) xs
    → Decodes xs sent
unfolding send_blocks
send_blocks-Decodes zero [] sent e sv small = subst (Decodes []) (cc) nothing-Decodes
send_blocks-Decodes (suc f) [] sent e sv small = subst (Decodes []) (cc) nothing-Decodes
send_blocks-Decodes zero (x ∷ xs) sent e sv small = cc
send_blocks-Decodes (suc f) (x ∷ xs) sent e sv small =
    let b = scan_block-IsBlock (x ∷ xs) 1 (omega arith) in
    let (later, e', shape) = emit-eq-some (scan_block (x ∷ xs) 1).0 _ e in
    subst (Decodes (x ∷ xs)) (sym shape) (
      block-Decodes b sv small later refl (
        send_blocks-Decodes f (skip_zero (scan_block (x ∷ xs) 1).1) later e'
          (left-survives b sv small) (left-small b sv small)))
