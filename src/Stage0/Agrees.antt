-- ===== src/Stage0/Agrees.antt =====
-- Stage 0 and the journal look for the newest sector header, each in its own way.
use toob_loader.Common.{ℕ, ◌+◌, ◌^◌, ◌<◌, ◌≡◌, refl, ap, subst, ◌∙◌, inl, inr, arith}
use toob_loader.Common.{Bool-cases, ltb, lt→ltb, List, [], ◌∷◌, Option, none, some, All}
use toob_loader.Hal.{FlashHal, CryptoHal}
use toob_loader.Journal.{Sector, is_newer_sequence, read_header}
use toob_loader.Journal.Wire.{sequence_id_of}
use toob_loader.Journal.Init.{newer_header, newest_from}
use toob_loader.Stage0.{
  BootPointer, no_pointer, pointer_of, note_header, valid_header, scan_wal_highest,
}
use toob_loader.Stage0.Highest.{pointer_of-seq}

-- A header whose sequence number is as yet far from the end of the numbers.
abbrev pub InRange : Option (List ℕ) → Type 0
InRange none = Unit
InRange (some bs) = (0 < sequence_id_of bs) × (sequence_id_of bs < 2 ^ 31)

-- The header that the journal holds for the newest one, and what stage 0 has taken out of it.
abbrev pub SameHeader : Option (ℕ × List ℕ) → BootPointer → Type 0
SameHeader none p = p ≡ no_pointer
SameHeader (some (i, bs)) p = (p ≡ pointer_of bs) × InRange (some bs)

plain_order : (new old : ℕ) → new < 2 ^ 31 → old < 2 ^ 31 → is_newer_sequence new old ≡ ltb old new
unfolding is_newer_sequence
plain_order new old h k = ground arith

SameHeader-step :
    (i : ℕ) (o : Option (List ℕ)) (best : Option (ℕ × List ℕ)) (p : BootPointer)
    → InRange o
    → SameHeader best p
    → SameHeader (newer_header i o best) (note_header o p)
unfolding newer_header note_header
SameHeader-step i none best p range same = same
SameHeader-step i (some bs) none p range same =
    let test =
      ap (λ (q : BootPointer). ltb q.highest_seq (sequence_id_of bs)) same
      ∙ lt→ltb 0 (sequence_id_of bs) range.0 in
    rw test (refl, range)
SameHeader-step i (some bs) (some (k, old)) p range same =
    let order = plain_order (sequence_id_of bs) (sequence_id_of old) range.1 same.1.1 in
    let seq : p.highest_seq ≡ sequence_id_of old =
      ap (λ (q : BootPointer). q.highest_seq) same.0 ∙ pointer_of-seq old in
    let test = ap (λ n. ltb n (sequence_id_of bs)) seq in
    elim (Bool-cases (ltb (sequence_id_of old) (sequence_id_of bs))) [
      | inl e ↦ rw (order ∙ e, test ∙ e) (refl, range)
      | inr e ↦ rw (order ∙ e, test ∙ e) same
    ]

module _ {S : Type 0} (hal : FlashHal S) (sectors : List Sector) (crypto : CryptoHal) (svn : ℕ)
    (s : S) where
  same_read : (sec : Sector) → valid_header hal s sec ≡ read_header hal sectors s sec
  unfolding valid_header read_header
  same_read sec = refl

  same_headers :
      (secs : List Sector) (i : ℕ) (best : Option (ℕ × List ℕ)) (p : BootPointer)
      → All (λ sec. InRange (valid_header hal s sec)) secs
      → SameHeader best p
      → SameHeader
          (newest_from hal sectors crypto svn s secs i best)
          (scan_wal_highest hal s secs p)
  unfolding newest_from scan_wal_highest
  same_headers [] i best p range same = same
  same_headers (sec ∷ secs) i best p (here, later) same =
      same_headers secs (i + 1) (newer_header i (read_header hal sectors s sec) best)
        (note_header (valid_header hal s sec) p) later
        (subst (λ o. SameHeader (newer_header i o best) (note_header (valid_header hal s sec) p))
          (same_read sec) (SameHeader-step i (valid_header hal s sec) best p here same))

  -- While the sequence numbers of all valid headers are above 0 and below 2^31, stage 0 takes its bank
  -- and its version from the header that the journal starts on, and from none if the journal is blank.
  pub scan_wal_highest-newest :
      (secs : List Sector)
      → All (λ sec. InRange (valid_header hal s sec)) secs
      → SameHeader
          (newest_from hal sectors crypto svn s secs 0 none)
          (scan_wal_highest hal s secs no_pointer)
  scan_wal_highest-newest secs range = same_headers secs 0 none no_pointer range refl
