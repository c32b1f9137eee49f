-- ===== src/Journal/Vote.antt =====
-- `tmr_majority_vote_idx`: the copy of the TMR payload that two of three sectors agree on.
use toob_loader.Common.{ℕ, ◌≡◌, refl, ◌∙◌, sym, ap, ap₂, subst, ◌≢◌, true, false, ◌⊎◌, inl, inr}
use toob_loader.Common.{List, [], ◌∷◌, get_or, ◌==◌, ==_iff, ==_refl, Bool-cases}
use toob_loader.Journal.{same_bytes, majority_vote_idx}

-- Equal buffers compare as equal.
pub same_bytes_refl : (xs : List ℕ) → same_bytes xs xs ≡ true
unfolding same_bytes
same_bytes_refl [] = refl
same_bytes_refl (x ∷ xs) = rw (==_refl x, same_bytes_refl xs) refl

-- Buffers that compare as equal are equal.
pub same_bytes→≡ : (xs ys : List ℕ) → same_bytes xs ys ≡ true → xs ≡ ys
unfolding same_bytes
same_bytes→≡ [] [] h = refl
same_bytes→≡ [] (y ∷ ys) h = cc
same_bytes→≡ (x ∷ xs) [] h = cc
same_bytes→≡ (x ∷ xs) (y ∷ ys) h = elim (Bool-cases (x == y)) [
  | inl e ↦ ap₂ (λ z zs. z ∷ zs) ((==_iff x y).0 e) (same_bytes→≡ xs ys (rw e at h))
  | inr e ↦ cc (rw e at h)
]

-- Whichever two of three copies agree, the copy that the vote picks is equal to them.
pub majority_vote_idx-agree :
    (a b c x : List ℕ)
    → ((a ≡ x) × (b ≡ x)) ⊎ (((a ≡ x) × (c ≡ x)) ⊎ ((b ≡ x) × (c ≡ x)))
    → let copies = a ∷ (b ∷ (c ∷ [])) in get_or copies (majority_vote_idx copies) [] ≡ x
unfolding majority_vote_idx
majority_vote_idx-agree a b c x agree = elim (Bool-cases (same_bytes a b)) [
  | inl e ↦ rw e (first agree (same_bytes→≡ a b e))
  | inr e ↦ rw e (elim (Bool-cases (same_bytes a c)) [
    | inl e' ↦ rw e' (second agree (differ a b e) (same_bytes→≡ a c e'))
    | inr e' ↦
        rw (e', third agree (differ a b e) (differ a c e'))
          (either agree (differ a b e) (differ a c e'))
  ])
]
  where
    differ : (p q : List ℕ) → same_bytes p q ≡ false → p ≢ q
    differ p q h e = cc (h, same_bytes_refl q, ap (λ z. same_bytes z q) e)

    second :
        ((a ≡ x) × (b ≡ x)) ⊎ (((a ≡ x) × (c ≡ x)) ⊎ ((b ≡ x) × (c ≡ x))) → a ≢ b → a ≡ c → a ≡ x
    second (inl p) ne e = p.0
    second (inr (inl p)) ne e = p.0
    second (inr (inr p)) ne e = e ∙ p.1

    either :
        ((a ≡ x) × (b ≡ x)) ⊎ (((a ≡ x) × (c ≡ x)) ⊎ ((b ≡ x) × (c ≡ x))) → a ≢ b → a ≢ c → b ≡ x
    either (inl p) ne ne' = p.1
    either (inr (inl p)) ne ne' = absurd (ne' (p.0 ∙ sym p.1))
    either (inr (inr p)) ne ne' = p.0

    third :
        ((a ≡ x) × (b ≡ x)) ⊎ (((a ≡ x) × (c ≡ x)) ⊎ ((b ≡ x) × (c ≡ x)))
        → a ≢ b
        → a ≢ c
        → same_bytes b c ≡ true
    third (inl p) ne ne' = absurd (ne (p.0 ∙ sym p.1))
    third (inr (inl p)) ne ne' = absurd (ne' (p.0 ∙ sym p.1))
    third (inr (inr p)) ne ne' =
        subst (λ z. same_bytes b z ≡ true) (p.0 ∙ sym p.1) (same_bytes_refl b)

    first : ((a ≡ x) × (b ≡ x)) ⊎ (((a ≡ x) × (c ≡ x)) ⊎ ((b ≡ x) × (c ≡ x))) → a ≡ b → a ≡ x
    first (inl p) e = p.0
    first (inr (inl p)) e = p.0
    first (inr (inr p)) e = e ∙ p.0
