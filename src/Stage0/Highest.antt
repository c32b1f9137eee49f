-- ===== src/Stage0/Highest.antt =====
-- The header that stage 0 believes.
use toob_loader.Common.{ℕ, ◌≤◌, ◌≡◌, refl, ◌∙◌, ◌⊎◌, inl, inr, arith}
use toob_loader.Common.{
  Bool, true, false, suc, get_or, Bool-cases, ltb, ltb→lt, ltb_false→le, ◌==◌, if◌then◌else◌, List,
  [], ◌∷◌, Option, none, some, All,
}
use toob_loader.Hal.{FlashHal}
use toob_loader.Journal.{Sector, no_sector}
use toob_loader.Journal.Wire.{sequence_id_of, magic_legacy, sector_magic_of}
use toob_loader.Stage0.{
  BootPointer, no_pointer, pointer_of, note_header, valid_header, scan_wal_highest,
}

-- No valid header of a sector has a higher sequence number than `n`.
abbrev pub NotAbove : Option (List ℕ) → ℕ → Type 0
NotAbove none n = Unit
NotAbove (some bs) n = sequence_id_of bs ≤ n

seq_if :
    (b : Bool) (p q : BootPointer) (n : ℕ)
    → p.highest_seq ≡ n
    → q.highest_seq ≡ n
    → (if b then p else q).highest_seq ≡ n
seq_if true p q n hp hq = hp
seq_if false p q n hp hq = hq

pub pointer_of-seq : (bs : List ℕ) → (pointer_of bs).highest_seq ≡ sequence_id_of bs
unfolding pointer_of
pointer_of-seq bs = seq_if (sector_magic_of bs == magic_legacy) _ _ (sequence_id_of bs) refl refl

NotAbove-mono : (o : Option (List ℕ)) (m n : ℕ) → m ≤ n → NotAbove o m → NotAbove o n
NotAbove-mono none m n h k = k
NotAbove-mono (some bs) m n h k = omega arith

note_header-grows :
    (o : Option (List ℕ)) (best : BootPointer)
    → (best.highest_seq ≤ (note_header o best).highest_seq)
      × NotAbove o (note_header o best).highest_seq
unfolding note_header
note_header-grows none best = (omega arith, tt)
note_header-grows (some bs) best = elim (Bool-cases (ltb best.highest_seq (sequence_id_of bs))) [
  | inl e ↦ rw e (
    omega (arith, pointer_of-seq bs, ltb→lt best.highest_seq (sequence_id_of bs) e),
    omega (arith, pointer_of-seq bs),
  )
  | inr e ↦ rw e (omega arith, ltb_false→le best.highest_seq (sequence_id_of bs) e)
]

note_header-from :
    (o : Option (List ℕ)) (best : BootPointer)
    → (note_header o best ≡ best)
      ⊎ ((bs : List ℕ) × (o ≡ some bs) × (note_header o best ≡ pointer_of bs))
unfolding note_header
note_header-from none best = inl refl
note_header-from (some bs) best = elim (Bool-cases (ltb best.highest_seq (sequence_id_of bs))) [
  | inl e ↦ inr (bs, refl, rw e refl)
  | inr e ↦ inl (rw e refl)
]

module _ {S : Type 0} (hal : FlashHal S) (s : S) where
  -- Where a pointer comes from: a valid header among the sectors, or the value before them.
  abbrev pub ComesFrom : List Sector → BootPointer → BootPointer → Type 0
  ComesFrom secs best p =
      (p ≡ best)
      ⊎ ((k : ℕ) × (bs : List ℕ) × (valid_header hal s (get_or secs k no_sector) ≡ some bs)
          × (p ≡ pointer_of bs))

  scan-grows :
      (secs : List Sector) (best : BootPointer)
      → best.highest_seq ≤ (scan_wal_highest hal s secs best).highest_seq
  unfolding scan_wal_highest
  scan-grows [] best = omega arith
  scan-grows (sec ∷ secs) best =
      let next = note_header (valid_header hal s sec) best in
      omega (arith, (note_header-grows (valid_header hal s sec) best).0, scan-grows secs next)

  scan-above :
      (secs : List Sector) (best : BootPointer)
      → All
          (λ sec. NotAbove (valid_header hal s sec) (scan_wal_highest hal s secs best).highest_seq)
          secs
  unfolding scan_wal_highest
  scan-above [] best = tt
  scan-above (sec ∷ secs) best =
      let next = note_header (valid_header hal s sec) best in
      (
        NotAbove-mono (valid_header hal s sec) next.highest_seq _ (scan-grows secs next)
            (note_header-grows (valid_header hal s sec) best).1,
        scan-above secs next,
      )

  scan-from :
      (secs : List Sector) (best : BootPointer)
      → ComesFrom secs best (scan_wal_highest hal s secs best)
  unfolding scan_wal_highest
  scan-from [] best = inl refl
  scan-from (sec ∷ secs) best = elim (scan-from secs (note_header (valid_header hal s sec) best)) [
    | inr (k, bs, v, e) ↦ inr (suc k, bs, v, e)
    | inl e ↦ elim (note_header-from (valid_header hal s sec) best) [
      | inl b ↦ inl (e ∙ b)
      | inr (bs, v, b) ↦ inr (0, bs, v, e ∙ b)
    ]
  ]

  -- Stage 0 takes its bank and its version from a valid header, or from none, and no valid header of
  -- the log has a plainly higher sequence number.
  pub scan_wal_highest-highest :
      (secs : List Sector)
      → let p = scan_wal_highest hal s secs no_pointer in
        ComesFrom secs no_pointer p
        × All (λ sec. NotAbove (valid_header hal s sec) p.highest_seq) secs
  scan_wal_highest-highest secs = (scan-from secs no_pointer, scan-above secs no_pointer)
