-- ===== src/Rstore/Vote.antt =====
-- The vote of a store with three slots.
use toob_loader.Common.{ℕ, ◌+◌, ◌≡◌, refl, ap, sym, ◌∙◌, true, false, ◌||◌, ◌⊎◌, inl, inr}
use toob_loader.Common.{arith, List, [], ◌∷◌, Option, none, some, Bool-cases, subst}
use toob_loader.Journal.{is_newer_sequence, same_bytes}
use toob_loader.Journal.Vote.{same_bytes→≡, same_bytes_refl}
use toob_loader.Rstore.{
  Copy, newest_loop, count_valid, count_agree, find_pair, content_at, vote, resolve,
}
use toob_loader.Rstore.{pair_or}

-- The record that the vote puts out.
abbrev pub Resolves : List (Option Copy) → List ℕ → Type 0
Resolves slots x = (seq : ℕ) × (resolve slots ≡ some (x, seq))

-- How the search for the newest copy goes on.
pub over :
    (seq : ℕ) (c : Copy) (slots : List (Option Copy)) (i idx : ℕ)
    → is_newer_sequence c.copy_seq seq ≡ true
    → newest_loop (some c ∷ slots) i (some (idx, seq))
      ≡ newest_loop slots (i + 1) (some (i, c.copy_seq))
unfolding newest_loop
over seq c slots i idx e = rw e refl

pub under :
    (seq : ℕ) (c : Copy) (slots : List (Option Copy)) (i idx : ℕ)
    → is_newer_sequence c.copy_seq seq ≡ false
    → newest_loop (some c ∷ slots) i (some (idx, seq)) ≡ newest_loop slots (i + 1) (some (idx, seq))
unfolding newest_loop
under seq c slots i idx e = rw e refl

pub resolve_newest :
    (slots : List (Option Copy)) (idx seq : ℕ)
    → newest_loop slots 0 none ≡ some (idx, seq)
    → resolve slots ≡ some (vote slots idx, seq)
unfolding resolve
resolve_newest slots idx seq e = rw (resolve, e) refl

-- Two of three records are `x`.
abbrev pub TwoOf : List ℕ → List ℕ → List ℕ → List ℕ → Type 0
TwoOf p q r x = ((p ≡ x) × (q ≡ x)) ⊎ (((p ≡ x) × (r ≡ x)) ⊎ ((q ≡ x) × (r ≡ x)))

swap_12 : (p q r x : List ℕ) → TwoOf p q r x → TwoOf q p r x
swap_12 p q r x (inl (e, e')) = inl (e', e)
swap_12 p q r x (inr (inl h)) = inr (inr h)
swap_12 p q r x (inr (inr h)) = inr (inl h)

rotate_3 : (p q r x : List ℕ) → TwoOf p q r x → TwoOf r p q x
rotate_3 p q r x (inl h) = inr (inr h)
rotate_3 p q r x (inr (inl (e, e'))) = inl (e', e)
rotate_3 p q r x (inr (inr (e, e'))) = inr (inl (e', e))

-- Equal records compare as equal.
pub same_content : (x y z : List ℕ) → y ≡ x → z ≡ x → same_bytes y z ≡ true
same_content x y z hy hz = subst (λ w. same_bytes y w ≡ true) (hy ∙ sym hz) (same_bytes_refl y)

-- A record that compares as equal to one of the others is the one that two hold.
agreeing : (p q r x : List ℕ) → TwoOf p q r x → (same_bytes p q || same_bytes p r) ≡ true → p ≡ x
agreeing p q r x (inl h) e = h.0
agreeing p q r x (inr (inl h)) e = h.0
agreeing p q r x (inr (inr (hq, hr))) e = elim (Bool-cases (same_bytes p q)) [
  | inl a ↦ same_bytes→≡ p q a ∙ hq
  | inr a ↦ same_bytes→≡ p r (rw a at e) ∙ hr
]

-- If it differs from both, those two hold it.
differing :
    (p q r x : List ℕ)
    → TwoOf p q r x
    → (same_bytes p q || same_bytes p r) ≡ false
    → (q ≡ x) × (r ≡ x)
differing p q r x (inl (e, e')) h = absurd (ground (arith, same_content x p q e e'))
differing p q r x (inr (inl (e, e'))) h = absurd (ground (arith, same_content x p r e e'))
differing p q r x (inr (inr k)) h = k

module _ (b c d : Copy) where
  abbrev pub three : List (Option Copy)
  three = some b ∷ (some c ∷ (some d ∷ []))

  agree_0 :
      (same_bytes b.content c.content || same_bytes b.content d.content) ≡ true
      → vote three 0 ≡ b.content
  unfolding vote count_valid count_agree find_pair content_at pair_or
  agree_0 h = ground arith

  pair_0 :
      (same_bytes b.content c.content || same_bytes b.content d.content) ≡ false
      → same_bytes c.content d.content ≡ true
      → vote three 0 ≡ c.content
  unfolding vote count_valid count_agree find_pair content_at pair_or
  pair_0 h k = ground arith

  agree_1 :
      (same_bytes c.content b.content || same_bytes c.content d.content) ≡ true
      → vote three 1 ≡ c.content
  unfolding vote count_valid count_agree find_pair content_at pair_or
  agree_1 h = ground arith

  pair_1 :
      (same_bytes c.content b.content || same_bytes c.content d.content) ≡ false
      → same_bytes b.content d.content ≡ true
      → vote three 1 ≡ b.content
  unfolding vote count_valid count_agree find_pair content_at pair_or
  pair_1 h k = ground arith

  agree_2 :
      (same_bytes d.content b.content || same_bytes d.content c.content) ≡ true
      → vote three 2 ≡ d.content
  unfolding vote count_valid count_agree find_pair content_at pair_or
  agree_2 h = ground arith

  pair_2 :
      (same_bytes d.content b.content || same_bytes d.content c.content) ≡ false
      → same_bytes b.content c.content ≡ true
      → vote three 2 ≡ b.content
  unfolding vote count_valid count_agree find_pair content_at pair_or
  pair_2 h k = ground arith

  -- Whichever copy is the newest, the vote is for the record that two of the three hold.
  vote_0 : (x : List ℕ) → TwoOf b.content c.content d.content x → vote three 0 ≡ x
  vote_0 x two =
      elim (Bool-cases (same_bytes b.content c.content || same_bytes b.content d.content)) [
        | inl e ↦ agree_0 e ∙ agreeing b.content c.content d.content x two e
        | inr e ↦
            let (hc, hd) = differing b.content c.content d.content x two e in
            pair_0 e (same_content x c.content d.content hc hd) ∙ hc
      ]

  vote_1 : (x : List ℕ) → TwoOf c.content b.content d.content x → vote three 1 ≡ x
  vote_1 x two =
      elim (Bool-cases (same_bytes c.content b.content || same_bytes c.content d.content)) [
        | inl e ↦ agree_1 e ∙ agreeing c.content b.content d.content x two e
        | inr e ↦
            let (hb, hd) = differing c.content b.content d.content x two e in
            pair_1 e (same_content x b.content d.content hb hd) ∙ hb
      ]

  vote_2 : (x : List ℕ) → TwoOf d.content b.content c.content x → vote three 2 ≡ x
  vote_2 x two =
      elim (Bool-cases (same_bytes d.content b.content || same_bytes d.content c.content)) [
        | inl e ↦ agree_2 e ∙ agreeing d.content b.content c.content x two e
        | inr e ↦
            let (hb, hc) = differing d.content b.content c.content x two e in
            pair_2 e (same_content x b.content c.content hb hc) ∙ hb
      ]

  -- One of the three is the newest.
  newest :
      ((seq : ℕ) × (newest_loop three 0 none ≡ some (0, seq)))
      ⊎ (((seq : ℕ) × (newest_loop three 0 none ≡ some (1, seq)))
          ⊎ ((seq : ℕ) × (newest_loop three 0 none ≡ some (2, seq))))
  unfolding newest_loop
  newest = elim (Bool-cases (is_newer_sequence c.copy_seq b.copy_seq)) [
    | inl e ↦ elim (Bool-cases (is_newer_sequence d.copy_seq c.copy_seq)) [
      | inl e' ↦ inr (inr (d.copy_seq, over _ c (some d ∷ []) 1 0 e ∙ over _ d [] 2 1 e'))
      | inr e' ↦ inr (inl (c.copy_seq, over _ c (some d ∷ []) 1 0 e ∙ under _ d [] 2 1 e'))
    ]
    | inr e ↦ elim (Bool-cases (is_newer_sequence d.copy_seq b.copy_seq)) [
      | inl e' ↦ inr (inr (d.copy_seq, under _ c (some d ∷ []) 1 0 e ∙ over _ d [] 2 0 e'))
      | inr e' ↦ inl (b.copy_seq, under _ c (some d ∷ []) 1 0 e ∙ under _ d [] 2 0 e')
    ]
  ]

  pub three-Resolves : (x : List ℕ) → TwoOf b.content c.content d.content x → Resolves three x
  three-Resolves x two = elim newest [
    | inl (seq, e) ↦ (seq, resolve_newest three 0 seq e ∙ ap (λ y. some (y, seq)) (vote_0 x two))
    | inr (inl (seq, e)) ↦ (
      seq,
      resolve_newest three 1 seq e
          ∙ ap (λ y. some (y, seq)) (vote_1 x (swap_12 b.content c.content d.content x two)),
    )
    | inr (inr (seq, e)) ↦ (
      seq,
      resolve_newest three 2 seq e
          ∙ ap (λ y. some (y, seq)) (vote_2 x (rotate_3 b.content c.content d.content x two)),
    )
  ]
