-- ===== src/Stage0/Booted.antt =====
-- What `stage0_try_boot_bank` has gone through, in the terms of its steps.
use toob_loader.Common.{ℕ, ◌+◌, ◌%◌, ◌^◌, ◌≤◌, ◌≡◌, refl, sym, ap, inl, inr, arith}
use toob_loader.Common.{Bool, true, false, not, ltb, ◌==◌, ◌||◌, List}
use toob_loader.Common.{Option, none, some, Option-cases, Bool-cases}
use toob_loader.Status.{Result, ok, Result-cases}
use toob_loader.Hal.{FlashHal, CryptoHal}
use toob_loader.Stage0.Boot.{
  ImageHeader, image_header_of, image_header_size, image_magic, Proof, Bank, eligible, halted,
}
use toob_loader.Stage0.Boot.{
  key_index_of, Layout, DigestCheck, verify_digest, hash_compute, check_bank_image, load_key,
  try_boot_bank,
}

-- The proof of a bank, or another one.
abbrev proof_or : Proof → Bank → Proof
proof_or q (eligible p) = p
proof_or q _ = q

-- What stage 0 notes of a bank.
abbrev pub proof_of : ℕ → ℕ → ImageHeader → Proof
proof_of svn_floor bank hdr = record {
  image_addr = bank;
  proof_size = hdr.image_size;
  proof_entry = hdr.entry_point;
  proof_svn = svn_floor;
}

module _ {S : Type 0} (hal : FlashHal S) (crypto : CryptoHal) (check : DigestCheck)
    (layout : Layout) (s : S) where
  -- The length that is hashed.
  abbrev pub hashed_len : ImageHeader → ℕ
  hashed_len hdr = (image_header_size + hdr.image_size) % 2 ^ 32

  -- The signature holds under the key that was loaded; without a key nothing is asked for.
  abbrev pub Verified : Option (List ℕ) → List ℕ → List ℕ → Type 0
  Verified none sig digest = Unit {0}
  Verified (some key) sig digest = verify_digest check sig key digest ≡ true

  -- A bank whose header is in order, and whose key checks its signature.
  abbrev pub IsAccepted : ℕ → Result ℕ × Result ℕ → ℕ → Proof → Type 0
  IsAccepted dslc reads bank p =
      (p.image_addr ≡ bank)
      × ((bs : List ℕ) × (hal.read s bank image_header_size ≡ ok bs)
          × ((image_header_of bs).header_magic ≡ image_magic)
          × ((image_header_of bs).image_size ≤ layout.app_slot_size)
          × (p.proof_entry ≡ (image_header_of bs).entry_point)
          × ((index : ℕ) × (key_index_of reads ≡ some index)
              × ((key : Option (List ℕ)) × (load_key hal crypto check layout dslc index ≡ some key)
                  × ((sig : List ℕ) × (hal.read s
                          ((bank + hashed_len (image_header_of bs)) % 2 ^ 32) 64
                        ≡ ok sig)
                      × Verified key sig (
                          hash_compute hal crypto check s bank
                            (hashed_len (image_header_of bs)))))))

  -- The proof of an eligible bank.
  noted :
      (q p : Proof)
      → eligible q ≡ eligible p
      → (p.image_addr ≡ q.image_addr) × (p.proof_entry ≡ q.proof_entry)
  noted q p e =
      (sym (ap (λ b. (proof_or p b).image_addr) e), sym (ap (λ b. (proof_or p b).proof_entry) e))

  signature-Verified :
      (svn_floor bank : ℕ) (hdr : ImageHeader) (key : Option (List ℕ)) (sig : List ℕ) (p : Proof)
      → hal.read s ((bank + hashed_len hdr) % 2 ^ 32) 64 ≡ ok sig
      → check_bank_image hal crypto check s svn_floor bank hdr key ≡ eligible p
      → (p.image_addr ≡ bank)
        × (p.proof_entry ≡ hdr.entry_point)
        × Verified key sig (hash_compute hal crypto check s bank (hashed_len hdr))
  unfolding check_bank_image
  signature-Verified svn_floor bank hdr none sig p e h =
      let (a, b) = noted _ p (rw (check_bank_image, e) at h) in (a, b, tt)
  signature-Verified svn_floor bank hdr (some key) sig p e h =
      elim (Bool-cases
        (verify_digest check sig key (hash_compute hal crypto check s bank (hashed_len hdr)))) [
          | inl v ↦ let (a, b) = noted _ p (rw (check_bank_image, e, v) at h) in (a, b, v)
          | inr v ↦ absurd (cc (rw (check_bank_image, e, v) at h))
        ]

  check_bank_image-Verified :
      (svn_floor bank : ℕ) (hdr : ImageHeader) (key : Option (List ℕ)) (p : Proof)
      → check_bank_image hal crypto check s svn_floor bank hdr key ≡ eligible p
      → (p.image_addr ≡ bank)
        × (p.proof_entry ≡ hdr.entry_point)
        × ((sig : List ℕ) × (hal.read s ((bank + hashed_len hdr) % 2 ^ 32) 64 ≡ ok sig)
            × Verified key sig (hash_compute hal crypto check s bank (hashed_len hdr)))
  unfolding check_bank_image
  check_bank_image-Verified svn_floor bank hdr key p h =
      elim (Result-cases (hal.read s ((bank + hashed_len hdr) % 2 ^ 32) 64)) [
        | inl (sig, e) ↦
            let (a, b, v) = signature-Verified svn_floor bank hdr key sig p e h in
            (a, b, (sig, e, v))
        | inr (inl (code, e)) ↦ absurd (cc (rw (check_bank_image, e) at h))
        | inr (inr e) ↦ absurd (cc (rw (check_bank_image, e) at h))
      ]

  check_bank_image-eligible :
      (svn_floor bank : ℕ) (hdr : ImageHeader) (key : Option (List ℕ)) (sig : List ℕ)
      → hal.read s ((bank + hashed_len hdr) % 2 ^ 32) 64 ≡ ok sig
      → Verified key sig (hash_compute hal crypto check s bank (hashed_len hdr))
      → check_bank_image hal crypto check s svn_floor bank hdr key
        ≡ eligible (proof_of svn_floor bank hdr)
  unfolding check_bank_image
  check_bank_image-eligible svn_floor bank hdr none sig e v = rw (check_bank_image, e) refl
  check_bank_image-eligible svn_floor bank hdr (some key) sig e v = rw (check_bank_image, e, v) refl

  pub try_boot_bank-IsAccepted :
      (dslc svn_floor : ℕ) (reads : Result ℕ × Result ℕ) (bank : ℕ) (p : Proof)
      → try_boot_bank hal crypto check layout s dslc svn_floor reads bank ≡ eligible p
      → IsAccepted dslc reads bank p
  unfolding try_boot_bank
  try_boot_bank-IsAccepted dslc svn_floor reads bank p h =
      elim (Result-cases (hal.read s bank image_header_size)) [
        | inl (bs, e) ↦
            elim (Bool-cases (
              not ((image_header_of bs).header_magic == image_magic)
              || ltb layout.app_slot_size (image_header_of bs).image_size)) [
                | inl bad ↦ absurd (cc (rw (try_boot_bank, e, bad) at h))
                | inr good ↦ elim (Option-cases (key_index_of reads)) [
                  | inl none_read ↦ absurd (cc (rw (try_boot_bank, e, good, none_read) at h))
                  | inr (index, i) ↦
                      elim (Option-cases (load_key hal crypto check layout dslc index)) [
                        | inl no_key ↦ absurd (cc (rw (try_boot_bank, e, good, i, no_key) at h))
                        | inr (key, k) ↦
                            let (a, b, (sig, r, v)) =
                              check_bank_image-Verified svn_floor bank (image_header_of bs) key p
                                (rw (try_boot_bank, e, good, i, k) at h) in
                            (
                              a,
                              (
                                bs,
                                e,
                                ground (arith, good),
                                ground (arith, good),
                                b,
                                (index, i, (key, k, (sig, r, v))),
                              ),
                            )
                      ]
                ]
              ]
        | inr (inl (code, e)) ↦ absurd (cc (rw (try_boot_bank, e) at h))
        | inr (inr e) ↦ absurd (cc (rw (try_boot_bank, e) at h))
      ]

  -- A bank that is in order is eligible, whatever the floor is.
  pub try_boot_bank-eligible :
      (dslc svn_floor : ℕ) (reads : Result ℕ × Result ℕ) (bank : ℕ) (q : Proof)
      → IsAccepted dslc reads bank q
      → (p : Proof) × (try_boot_bank hal crypto check layout s dslc svn_floor reads bank
          ≡ eligible p)
  unfolding try_boot_bank
  try_boot_bank-eligible dslc svn_floor reads bank q
        (a, (bs, e, m, fits, b, (index, i, (key, k, (sig, r, v))))) =
      let c = check_bank_image-eligible svn_floor bank (image_header_of bs) key sig r v in
      let good : (not ((image_header_of bs).header_magic == image_magic)
            || ltb layout.app_slot_size (image_header_of bs).image_size)
          ≡ false =
        ground (arith, m, fits) in
      (proof_of svn_floor bank (image_header_of bs), rw (try_boot_bank, e, good, i, k) c)

abbrev pub is_halted : Bank → Bool
is_halted halted = true
is_halted _ = false

module _ {S : Type 0} (hal : FlashHal S) (crypto : CryptoHal) (check : DigestCheck)
    (layout : Layout) (s : S) where
  check_bank_image-runs :
      (svn_floor bank : ℕ) (hdr : ImageHeader) (key : Option (List ℕ))
      → is_halted (check_bank_image hal crypto check s svn_floor bank hdr key) ≡ false
  unfolding check_bank_image
  check_bank_image-runs svn_floor bank hdr key = grind arith

  -- A bank does not halt a device whose counter can be read.
  pub try_boot_bank-runs :
      (dslc svn_floor : ℕ) (reads : Result ℕ × Result ℕ) (bank index : ℕ)
      → key_index_of reads ≡ some index
      → is_halted (try_boot_bank hal crypto check layout s dslc svn_floor reads bank) ≡ false
  unfolding try_boot_bank
  try_boot_bank-runs dslc svn_floor reads bank index i = grind (arith, i, check_bank_image-runs)
