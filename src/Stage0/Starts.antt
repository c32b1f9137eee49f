-- ===== src/Stage0/Starts.antt =====
-- Where stage 0 ends: what it starts, that it starts a bank which is in order, and what becomes of
-- the version floor.
use toob_loader.Common.{ℕ, ◌≡◌, refl, ap, ◌∙◌, ◌⊎◌, inl, inr, arith, Bool, ◌==◌, if◌then◌else◌}
use toob_loader.Common.{List, Option, some, Bool-cases, true, false}
use toob_loader.Status.{Result}
use toob_loader.Hal.{FlashHal, CryptoHal}
use toob_loader.Journal.{Sector}
use toob_loader.Stage0.{get_active_slot, evaluate_tentative, scan_wal_highest, no_pointer}
use toob_loader.Stage0.Boot.{
  Proof, Bank, eligible, refused, halted, Ending, jump, rescue, dead_halt,
}
use toob_loader.Stage0.Boot.{
  vote_dslc, Readings, Layout, DigestCheck, try_boot_bank, try_banks, preferred_slot, svn_floor_of,
  stage0_main, check_bank_image, ImageHeader,
}
use toob_loader.Stage0.Booted.{try_boot_bank-runs, is_halted}
use toob_loader.Stage0.Signed.{IsStarted, IsStarted-eligible}

Bank-cases : (b : Bank) → ((p : Proof) × (b ≡ eligible p)) ⊎ ((b ≡ refused) ⊎ (b ≡ halted))
Bank-cases (eligible p) = inl (p, refl)
Bank-cases refused = inr (inl refl)
Bank-cases halted = inr (inr refl)

abbrev bank_of : Ending → Bank
bank_of (jump p) = eligible p
bank_of rescue = refused
bank_of dead_halt = halted

-- Another floor in the proof of a bank.
abbrev pub with_floor : ℕ → Bank → Bank
with_floor svn_floor (eligible p) = eligible (record p { proof_svn = svn_floor })
with_floor svn_floor b = b

module _ {S : Type 0} (hal : FlashHal S) (crypto : CryptoHal) (check : DigestCheck)
    (layout : Layout) (s : S) where
  abbrev other : ℕ → ℕ
  other slot = if slot == layout.stage1a then layout.stage1b else layout.stage1a

  abbrev pub IsBank : ℕ → Type 0
  IsBank bank = (bank ≡ layout.stage1a) ⊎ (bank ≡ layout.stage1b)

  other-IsBank : (slot : ℕ) → IsBank (other slot)
  other-IsBank slot = elim (Bool-cases (slot == layout.stage1a)) [
    | inl e ↦ inr (rw e refl)
    | inr e ↦ inl (rw e refl)
  ]

  moved-IsBank :
      (test : Bool) (slot magic : ℕ)
      → IsBank slot
      → let moved : ℕ × ℕ = if test then (other slot, 0) else (slot, magic) in IsBank moved.0
  moved-IsBank true slot magic h = other-IsBank slot
  moved-IsBank false slot magic h = h

  active-IsBank :
      (secs : List Sector) → IsBank (get_active_slot hal layout.stage1a layout.stage1b s secs)
  unfolding get_active_slot
  active-IsBank secs = elim (Bool-cases ((scan_wal_highest hal s secs no_pointer).bank == 0)) [
    | inl e ↦ inl (rw e refl)
    | inr e ↦ inr (rw e refl)
  ]

  preferred_slot-IsBank :
      (secs : List Sector) (readings : Readings)
      → IsBank (preferred_slot hal crypto check layout s secs readings)
  unfolding preferred_slot evaluate_tentative
  preferred_slot-IsBank secs readings = moved-IsBank _ _ _ (active-IsBank secs)

  -- The bank that is started, with the reads of the counter that it was tried with.
  abbrev pub Started : ℕ → Readings → Proof → Type 0
  Started dslc readings p =
      (bank : ℕ) × (IsBank bank)
      × (IsStarted hal crypto check layout s dslc readings.preferred_reads bank p
          ⊎ IsStarted hal crypto check layout s dslc readings.fallback_reads bank p)

  other-of : (slot bank : ℕ) → IsBank slot → IsBank bank → (slot ≡ bank) ⊎ (other slot ≡ bank)
  other-of slot bank h k = grind arith

  try_banks_first :
      (readings : Readings) (dslc svn_floor slot : ℕ) (p : Proof)
      → try_boot_bank hal crypto check layout s dslc svn_floor readings.preferred_reads slot
        ≡ eligible p
      → try_banks hal crypto check layout s readings dslc svn_floor slot ≡ jump p
  unfolding try_banks
  try_banks_first readings dslc svn_floor slot p e = rw (try_banks, e) refl

  -- The second bank is tried where the first one is refused.
  try_banks_second :
      (readings : Readings) (dslc svn_floor slot : ℕ) (p : Proof)
      → is_halted
          (try_boot_bank hal crypto check layout s dslc svn_floor readings.preferred_reads slot)
        ≡ false
      → try_boot_bank hal crypto check layout s dslc svn_floor readings.fallback_reads (other slot)
        ≡ eligible p
      → (q : Proof) × (try_banks hal crypto check layout s readings dslc svn_floor slot ≡ jump q)
  unfolding try_banks
  try_banks_second readings dslc svn_floor slot p runs e =
      elim (Bank-cases
        (try_boot_bank hal crypto check layout s dslc svn_floor readings.preferred_reads slot)) [
          | inl (q, f) ↦ (q, rw (try_banks, f) refl)
          | inr (inl f) ↦ (p, rw (try_banks, f, e) refl)
          | inr (inr f) ↦ absurd (cc (f, runs))
        ]

  -- A device with a bank that is in order starts: if the five rounds on the DSLC have a vote, the counter
  -- reads the same for both banks, and one of the banks has a header in order and a signature under the
  -- key of the epoch, or may go past it, then stage 0 jumps.
  pub stage0_main_starts :
      (secs : List Sector) (readings : Readings) (dslc bank : ℕ) (q : Proof)
      → vote_dslc readings.dslc_reads ≡ some dslc
      → readings.fallback_reads ≡ readings.preferred_reads
      → IsBank bank
      → IsStarted hal crypto check layout s dslc readings.preferred_reads bank q
      → (p : Proof) × (stage0_main hal crypto check layout s secs readings ≡ jump p)
  unfolding stage0_main
  stage0_main_starts secs readings dslc bank q v same k h =
      let slot = preferred_slot hal crypto check layout s secs readings in
      let svn_floor = svn_floor_of hal crypto check s secs readings in
      let ((p, e), (index, i)) =
        IsStarted-eligible hal crypto check layout s dslc svn_floor readings.preferred_reads bank q
          h in
      elim (other-of slot bank (preferred_slot-IsBank secs readings) k) [
        | inl here ↦
            (p, rw (stage0_main, v) (try_banks_first readings dslc svn_floor slot p (rw here e)))
        | inr there ↦
            let (p', e') =
              try_banks_second readings dslc svn_floor slot p
                (try_boot_bank-runs hal crypto check layout s dslc svn_floor
                  readings.preferred_reads slot index i)
                (ap
                    (λ reads.
                      try_boot_bank hal crypto check layout s dslc svn_floor reads (other slot))
                    same
                  ∙ (ap
                        (try_boot_bank hal crypto check layout s dslc svn_floor
                          readings.preferred_reads)
                        there
                      ∙ e)) in
            (p', rw (stage0_main, v) e')
      ]

  check_bank_image-with_floor :
      (low high bank : ℕ) (hdr : ImageHeader) (key : Option (List ℕ))
      → check_bank_image hal crypto check s high bank hdr key
        ≡ with_floor high (check_bank_image hal crypto check s low bank hdr key)
  unfolding check_bank_image
  check_bank_image-with_floor low high bank hdr key = grind arith

  -- `stage0_try_boot_bank` makes the same of a bank whatever the version floor is: the floor is only
  -- noted in the proof.
  pub try_boot_bank-with_floor :
      (dslc low high : ℕ) (reads : Result ℕ × Result ℕ) (bank : ℕ)
      → try_boot_bank hal crypto check layout s dslc high reads bank
        ≡ with_floor high (try_boot_bank hal crypto check layout s dslc low reads bank)
  unfolding try_boot_bank
  try_boot_bank-with_floor dslc low high reads bank = grind (arith, check_bank_image-with_floor)
