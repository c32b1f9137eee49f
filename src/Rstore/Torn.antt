-- ===== src/Rstore/Torn.antt =====
-- A store with three slots of which one may be unreadable: what a vote brings after a write that was
-- cut off.
use toob_loader.Common.{ℕ, ◌≡◌, ap, ◌∙◌, false, inl, inr, ◌⊎◌}
use toob_loader.Common.{arith, List, [], ◌∷◌, Option, none, some, Bool-cases}
use toob_loader.Journal.{is_newer_sequence, same_bytes}
use toob_loader.Rstore.{Copy, newest_loop, count_valid, count_agree, find_pair, content_at, vote}
use toob_loader.Rstore.{pair_or, resolve}
use toob_loader.Rstore.Vote.{Resolves, three-Resolves, resolve_newest, over, under}
use toob_loader.Rstore.Vote.{same_content}

-- A slot that holds `x`.
abbrev pub Holds : Option Copy → List ℕ → Type 0
Holds o x = (c : Copy) × (o ≡ some c) × (c.content ≡ x)

module _ (b c : Copy) where
  first_torn :
      (x : List ℕ) → b.content ≡ x → c.content ≡ x → Resolves (none ∷ (some b ∷ (some c ∷ []))) x
  unfolding newest_loop vote count_valid count_agree find_pair content_at pair_or
  first_torn x hb hc =
      let slots : List (Option Copy) = none ∷ (some b ∷ (some c ∷ [])) in
      elim (Bool-cases (is_newer_sequence c.copy_seq b.copy_seq)) [
        | inl e ↦ (
          c.copy_seq,
          resolve_newest slots 2 c.copy_seq (over _ c [] 2 1 e)
              ∙ ap (λ y. some (y, c.copy_seq))
                  (ground (arith, hc, same_content x c.content b.content hc hb)),
        )
        | inr e ↦ (
          b.copy_seq,
          resolve_newest slots 1 b.copy_seq (under _ c [] 2 1 e)
              ∙ ap (λ y. some (y, b.copy_seq))
                  (ground (arith, hb, same_content x b.content c.content hb hc)),
        )
      ]

  middle_torn :
      (x : List ℕ) → b.content ≡ x → c.content ≡ x → Resolves (some b ∷ (none ∷ (some c ∷ []))) x
  unfolding newest_loop vote count_valid count_agree find_pair content_at pair_or
  middle_torn x hb hc =
      let slots : List (Option Copy) = some b ∷ (none ∷ (some c ∷ [])) in
      elim (Bool-cases (is_newer_sequence c.copy_seq b.copy_seq)) [
        | inl e ↦ (
          c.copy_seq,
          resolve_newest slots 2 c.copy_seq (over _ c [] 2 0 e)
              ∙ ap (λ y. some (y, c.copy_seq))
                  (ground (arith, hc, same_content x c.content b.content hc hb)),
        )
        | inr e ↦ (
          b.copy_seq,
          resolve_newest slots 0 b.copy_seq (under _ c [] 2 0 e)
              ∙ ap (λ y. some (y, b.copy_seq))
                  (ground (arith, hb, same_content x b.content c.content hb hc)),
        )
      ]

  last_torn :
      (x : List ℕ) → b.content ≡ x → c.content ≡ x → Resolves (some b ∷ (some c ∷ (none ∷ []))) x
  unfolding newest_loop vote count_valid count_agree find_pair content_at pair_or
  last_torn x hb hc =
      let slots : List (Option Copy) = some b ∷ (some c ∷ (none ∷ [])) in
      elim (Bool-cases (is_newer_sequence c.copy_seq b.copy_seq)) [
        | inl e ↦ (
          c.copy_seq,
          resolve_newest slots 1 c.copy_seq (over _ c (none ∷ []) 1 0 e)
              ∙ ap (λ y. some (y, c.copy_seq))
                  (ground (arith, hc, same_content x c.content b.content hc hb)),
        )
        | inr e ↦ (
          b.copy_seq,
          resolve_newest slots 0 b.copy_seq (under _ c (none ∷ []) 1 0 e)
              ∙ ap (λ y. some (y, b.copy_seq))
                  (ground (arith, hb, same_content x b.content c.content hb hc)),
        )
      ]

-- In a store of three slots of which two hold a record, the vote is for that record, whatever the third
-- slot holds, and whichever slot is the newest.
pub resolve-two :
    (o p q : Option Copy) (x : List ℕ)
    → (Holds o x × Holds p x) ⊎ ((Holds o x × Holds q x) ⊎ (Holds p x × Holds q x))
    → Resolves (o ∷ (p ∷ (q ∷ []))) x
resolve-two o p none x (inl ((b, eb, hb), (c, ec, hc))) = rw (eb, ec) (last_torn b c x hb hc)
resolve-two o p (some d) x (inl ((b, eb, hb), (c, ec, hc))) =
    rw (eb, ec) (three-Resolves b c d x (inl (hb, hc)))
resolve-two o none q x (inr (inl ((b, eb, hb), (c, ec, hc)))) =
    rw (eb, ec) (middle_torn b c x hb hc)
resolve-two o (some d) q x (inr (inl ((b, eb, hb), (c, ec, hc)))) =
    rw (eb, ec) (three-Resolves b d c x (inr (inl (hb, hc))))
resolve-two none p q x (inr (inr ((b, eb, hb), (c, ec, hc)))) = rw (eb, ec) (first_torn b c x hb hc)
resolve-two (some d) p q x (inr (inr ((b, eb, hb), (c, ec, hc)))) =
    rw (eb, ec) (three-Resolves d b c x (inr (inr (hb, hc))))

-- After a write that was cut off in the second of three slots the new record of the first slot is
-- taken, if it is newer than and different from the old one of the third slot.
resolve-cut_off :
    (b c : Copy)
    → is_newer_sequence c.copy_seq b.copy_seq ≡ false
    → same_bytes b.content c.content ≡ false
    → resolve (some b ∷ (none ∷ (some c ∷ []))) ≡ some (b.content, b.copy_seq)
unfolding newest_loop vote count_valid count_agree find_pair content_at pair_or
resolve-cut_off b c older differs =
    let slots : List (Option Copy) = some b ∷ (none ∷ (some c ∷ [])) in
    resolve_newest slots 0 b.copy_seq (under _ c [] 2 0 older)
    ∙ ap (λ y. some (y, b.copy_seq)) (ground arith)
