-- ===== src/Journal/BestSector.antt =====
-- `get_best_wear_leveling_sector`: which sectors can be picked for the next rotation.
use toob_loader.Common.{Option, none, ap, ◌∙◌}
use toob_loader.Common.{ℕ, ◌+◌, ◌-◌, ◌%◌, ◌^◌, ◌≡◌, refl, ap, Bool, true, false, ◌⊎◌, inl, inr}
use toob_loader.Common.{
  List, [], ◌∷◌, length, get_elem?, some, ltb, ◌==◌, if◌then◌else◌, Bool-cases,
}
use toob_loader.Common.{◌∙◌, sym, subst, ◌<◌, suc, ◌≤◌, arith}
use toob_loader.Common.{All, Option-cases}
use toob_loader.Hal.{FlashHal}
use toob_loader.Journal.Wire.{sequence_id_of, erase_count_of}
use toob_loader.Journal.{Sector, read_header, is_excluded, best_loop, best_sector}

-- The header's sequence number is one of the four up to `highest_seq`.
abbrev pub in_window : ℕ → List ℕ → Bool
in_window highest_seq bs = ltb ((highest_seq + 2 ^ 32 - sequence_id_of bs) % 2 ^ 32) 4

-- The sector has a valid header, `some`, of one of the last four sequence numbers.
abbrev pub is_protected : ℕ → Option (List ℕ) → Bool
is_protected highest_seq none = false
is_protected highest_seq (some bs) = in_window highest_seq bs

module _ {S : Type 0} (hal : FlashHal S) (sectors : List Sector) (s : S) (highest_seq : ℕ)
    (exclude : List ℕ) where
  abbrev pub IsProtected : Sector → Type 0
  IsProtected sec = is_protected highest_seq (read_header hal sectors s sec) ≡ true

  best_loop-protected :
      (secs : List Sector) (i best min_erase : ℕ)
      → All IsProtected secs
      → best_loop hal sectors s secs i highest_seq exclude best min_erase
        ≡ (if best == 0xFFFFFFFF then 0 else best)
  unfolding best_loop
  best_loop-protected [] i best min_erase h = refl
  best_loop-protected (sec ∷ secs) i best min_erase (w, h) =
      elim (Option-cases (read_header hal sectors s sec)) [
        | inl e ↦ cc (rw e at w)
        | inr (bs, e) ↦ elim (Bool-cases (is_excluded hal sectors exclude i)) [
          | inl x ↦ rw (best_loop, e, x) (best_loop-protected secs (i + 1) best min_erase h)
          | inr x ↦
              rw (best_loop, e, x, (rw e at w)) (best_loop-protected secs (i + 1) best min_erase h)
        ]
      ]

  -- Where every sector of the log has a valid header of one of the last four sequence numbers, the
  -- sector picked is sector 0, also where the caller excludes sector 0.
  pub best_sector-protected :
      All IsProtected sectors → best_sector hal sectors s highest_seq exclude ≡ 0
  unfolding best_sector
  best_sector-protected h = best_loop-protected sectors 0 0xFFFFFFFF 0xFFFFFFFF h

  -- Sector `k` of `secs`, whose first one is number `i`, may be picked.
  abbrev MayBePicked : List Sector → ℕ → ℕ → Type 0
  MayBePicked secs i r =
      (k : ℕ) × (sec : Sector) × (r ≡ i + k)
      × (get_elem? secs k ≡ some sec)
      × (is_excluded hal sectors exclude r ≡ false)
      × (is_protected highest_seq (read_header hal sectors s sec) ≡ false)

  later_one :
      (sec : Sector) (secs : List Sector) (i r : ℕ)
      → MayBePicked secs (i + 1) r
      → MayBePicked (sec ∷ secs) i r
  later_one sec secs i r (k, sec', e, at, free, rest) = (suc k, sec', omega arith, at, free, rest)

  best_loop-picked :
      (secs : List Sector) (i best min_erase : ℕ)
      → i + length secs ≤ 0xFFFFFFFF
      → let r = best_loop hal sectors s secs i highest_seq exclude best min_erase in
        (r ≡ (if best == 0xFFFFFFFF then 0 else best)) ⊎ MayBePicked secs i r
  unfolding best_loop
  best_loop-picked [] i best min_erase h = inl refl
  best_loop-picked (sec ∷ secs) i best min_erase h =
      elim (Bool-cases (is_excluded hal sectors exclude i)) [
        | inl x ↦ elim (Option-cases (read_header hal sectors s sec)) [
          | inl e ↦
              rw (best_loop, e, x)
                (skip _ _ (best_loop-picked secs (i + 1) best min_erase (omega arith)))
          | inr (bs, e) ↦
              rw (best_loop, e, x)
                (skip _ _ (best_loop-picked secs (i + 1) best min_erase (omega arith)))
        ]
        | inr x ↦ elim (Option-cases (read_header hal sectors s sec)) [
          | inl e ↦ rw (best_loop, e, x) (inr (here x (ap (is_protected highest_seq) e) i refl))
          | inr (bs, e) ↦ elim (Bool-cases (in_window highest_seq bs)) [
            | inl y ↦
                rw (best_loop, e, x, y)
                  (skip _ _ (best_loop-picked secs (i + 1) best min_erase (omega arith)))
            | inr y ↦ elim (Bool-cases (ltb (erase_count_of bs) min_erase)) [
              | inr z ↦
                  rw (best_loop, e, x, y, z)
                    (skip _ _ (best_loop-picked secs (i + 1) best min_erase (omega arith)))
              | inl z ↦
                  rw (best_loop, e, x, y, z)
                    (elim (best_loop-picked secs (i + 1) i (erase_count_of bs) (omega arith)) [
                      | inr p ↦ inr (later_one sec secs i _ p)
                      | inl q ↦ inr (here x (ap (is_protected highest_seq) e ∙ y) _ (q ∙ in_range))
                    ])
            ]
          ]
        ]
      ]
    where
      skip :
          (r value : ℕ)
          → (r ≡ value) ⊎ MayBePicked secs (i + 1) r
          → (r ≡ value) ⊎ MayBePicked (sec ∷ secs) i r
      skip r value (inl e) = inl e
      skip r value (inr p) = inr (later_one sec secs i r p)

      in_range : (if i == 0xFFFFFFFF then 0 else i) ≡ i
      in_range = ground arith

      here :
          is_excluded hal sectors exclude i ≡ false
          → is_protected highest_seq (read_header hal sectors s sec) ≡ false
          → (r : ℕ) → r ≡ i
          → MayBePicked (sec ∷ secs) i r
      here x y r q = (0, sec, omega arith, refl, rw q x, y)

  zero_add : (k : ℕ) → 0 + k ≡ k
  zero_add k = omega arith

  -- Over fewer than 2 ^ 32 sectors, the sector picked is sector 0, which is also what the search falls
  -- back on, or one of the log that the caller does not exclude and that has no valid header of one
  -- of the last four sequence numbers.
  pub best_sector-picked :
      length sectors < 2 ^ 32
      → let r = best_sector hal sectors s highest_seq exclude in
        (r ≡ 0)
        ⊎ ((sec : Sector) × (get_elem? sectors r ≡ some sec)
            × (is_excluded hal sectors exclude r ≡ false)
            × (is_protected highest_seq (read_header hal sectors s sec) ≡ false))
  unfolding best_sector
  best_sector-picked h = elim (best_loop-picked sectors 0 0xFFFFFFFF 0xFFFFFFFF (omega arith)) [
    | inl e ↦ inl e
    | inr (k, sec, e, at, free, fresh) ↦
        inr
          (sec, subst (λ z. get_elem? sectors z ≡ some sec) (sym (e ∙ zero_add k)) at, free, fresh)
  ]
