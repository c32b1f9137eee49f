-- ===== src/Stage0/Signed.antt =====
-- What stage 0 starts, in the terms of the hardware: the header, the key and the signature.
use toob_loader.Common.{
  ℕ, ◌+◌, ◌%◌, ◌^◌, ◌≤◌, ◌≡◌, refl, sym, subst, ap, ◌∙◌, ◌⊎◌, inl, inr, min, arith,
}
use toob_loader.Common.{true, ◌==◌, ◌&&◌, ltb, if◌then◌else◌, List, Option, none, some}
use toob_loader.Common.{Option-cases, Bool-cases}
use toob_loader.Status.{Status, ok_status, is_ok→≡, Result, ok, err, Result-cases}
use toob_loader.Hal.{FlashHal, CryptoHal}
use toob_loader.Journal.UpdateTmr.{read_counter_safe}
use toob_loader.Journal.Counter.{read_counter_safe-ok, read_counter_safe-agree}
use toob_loader.Stage0.Boot.{
  image_header_of, image_header_size, image_magic, Proof, eligible, key_index_of, Layout,
  DigestCheck, verify_digest, hash_compute, load_key, try_boot_bank,
}
use toob_loader.Stage0.Booted.{
  Verified, hashed_len, try_boot_bank-IsAccepted, try_boot_bank-eligible,
}

-- Both reads of the counter bring one epoch, which is the index of the key, up to 255.
abbrev pub IsKeyIndex : Result ℕ × Result ℕ → ℕ → Type 0
IsKeyIndex reads index =
    (epoch : ℕ) × (reads.0 ≡ ok epoch) × (reads.1 ≡ ok epoch) × (index ≡ min epoch 255)

capped : (epoch : ℕ) → (if ltb 255 epoch then 255 else epoch) ≡ min epoch 255
capped epoch = ground arith

some_inj : {A : Type 0} {a b : A} → some a ≡ some b → a ≡ b
some_inj h = cc

key_index_of-IsKeyIndex :
    (reads : Result ℕ × Result ℕ) (index : ℕ)
    → key_index_of reads ≡ some index
    → IsKeyIndex reads index
unfolding key_index_of
key_index_of-IsKeyIndex (first, second) index h =
    elim (Result-cases (read_counter_safe first second)) [
      | inl (epoch, e) ↦
          let (a, b) = read_counter_safe-ok first second epoch e in
          (epoch, a, b, sym (some_inj (rw (key_index_of, e) at h)) ∙ capped epoch)
      | inr (inl (code, e)) ↦ absurd (cc (rw (key_index_of, e) at h))
      | inr (inr e) ↦ absurd (cc (rw (key_index_of, e) at h))
    ]

IsKeyIndex-key_index_of :
    (reads : Result ℕ × Result ℕ) (index : ℕ)
    → IsKeyIndex reads index
    → key_index_of reads ≡ some index
unfolding key_index_of
IsKeyIndex-key_index_of (first, second) index (epoch, a, b, i) =
    rw (key_index_of, a, b, read_counter_safe-agree epoch, i) (ap some (capped epoch))

module _ {S : Type 0} (hal : FlashHal S) (crypto : CryptoHal) (check : DigestCheck)
    (layout : Layout) (s : S) where
  -- The signature is one of the key with this index; or this is a build with the development bypass, the
  -- DSLC is 0, and the key cannot be read.
  abbrev pub IsSigned : ℕ → ℕ → List ℕ → List ℕ → Type 0
  IsSigned dslc index sig digest =
      ((key : List ℕ) × (crypto.read_pubkey index ≡ ok key)
        × ((verify : List ℕ → List ℕ → List ℕ → Status) × (check ≡ some verify)
            × (verify digest sig key ≡ ok_status)))
      ⊎ ((layout.dev_bypass ≡ true)
          × (dslc ≡ 0)
          × ((code : Status) × (crypto.read_pubkey index ≡ err code)))

  verify_digest-signs :
      (sig key digest : List ℕ)
      → verify_digest check sig key digest ≡ true
      → (verify : List ℕ → List ℕ → List ℕ → Status) × (check ≡ some verify)
        × (verify digest sig key ≡ ok_status)
  unfolding verify_digest
  verify_digest-signs sig key digest h = elim (Option-cases check) [
    | inl e ↦ absurd (cc (rw (verify_digest, e) at h))
    | inr (verify, e) ↦ (verify, e, is_ok→≡ _ (rw (verify_digest, e) at h))
  ]

  load_key-IsSigned :
      (dslc index : ℕ) (key : Option (List ℕ)) (sig digest : List ℕ)
      → load_key hal crypto check layout dslc index ≡ some key
      → Verified hal crypto check layout s key sig digest
      → IsSigned dslc index sig digest
  unfolding load_key
  load_key-IsSigned dslc index key sig digest h v = elim (Result-cases (crypto.read_pubkey index)) [
    | inl (k, e) ↦
        let same : some k ≡ key = some_inj (rw (load_key, e) at h) in
        inl (
          k,
          e,
          verify_digest-signs sig k digest
              (subst (λ q. Verified hal crypto check layout s q sig digest) (sym same) v),
        )
    | inr (inl (code, e)) ↦ elim (Bool-cases (layout.dev_bypass && dslc == 0)) [
      | inl both ↦ inr (ground (arith, both), ground (arith, both), (code, e))
      | inr neither ↦ absurd (cc (rw (load_key, e, neither) at h))
    ]
    | inr (inr e) ↦ absurd (cc (rw (load_key, e) at h))
  ]

  IsSigned-load_key :
      (dslc index : ℕ) (sig digest : List ℕ)
      → IsSigned dslc index sig digest
      → (key : Option (List ℕ)) × (load_key hal crypto check layout dslc index ≡ some key)
        × Verified hal crypto check layout s key sig digest
  unfolding load_key verify_digest
  IsSigned-load_key dslc index sig digest (inl (key, k, (verify, c, good))) =
      (some key, rw (load_key, k) refl, rw (verify_digest, c, good) refl)
  IsSigned-load_key dslc index sig digest (inr (bypass, z, (code, k))) =
      (none, rw (load_key, k, bypass, z) refl, tt)

  -- A bank with a header in order whose hash is signed.
  abbrev pub IsStarted : ℕ → Result ℕ × Result ℕ → ℕ → Proof → Type 0
  IsStarted dslc reads bank p =
      (p.image_addr ≡ bank)
      × ((bs : List ℕ) × (hal.read s bank image_header_size ≡ ok bs)
          × ((image_header_of bs).header_magic ≡ image_magic)
          × ((image_header_of bs).image_size ≤ layout.app_slot_size)
          × (p.proof_entry ≡ (image_header_of bs).entry_point)
          × ((index : ℕ) × (IsKeyIndex reads index)
              × ((sig : List ℕ) × (hal.read s
                      ((bank + hashed_len hal crypto check layout s (image_header_of bs)) % 2 ^ 32)
                      64
                    ≡ ok sig)
                  × IsSigned dslc index sig (
                      hash_compute hal crypto check s bank
                        (hashed_len hal crypto check layout s (image_header_of bs))))))

  pub try_boot_bank-IsStarted :
      (dslc svn_floor : ℕ) (reads : Result ℕ × Result ℕ) (bank : ℕ) (p : Proof)
      → try_boot_bank hal crypto check layout s dslc svn_floor reads bank ≡ eligible p
      → IsStarted dslc reads bank p
  try_boot_bank-IsStarted dslc svn_floor reads bank p h =
      let (a, (bs, e, m, fits, b, (index, i, (key, k, (sig, r, v))))) =
        try_boot_bank-IsAccepted hal crypto check layout s dslc svn_floor reads bank p h in
      let signed = load_key-IsSigned dslc index key sig _ k v in
      (a, (bs, e, m, fits, b, (index, key_index_of-IsKeyIndex reads index i, (sig, r, signed))))

  -- Such a bank is eligible, whatever the floor is, and its key index can be had.
  pub IsStarted-eligible :
      (dslc svn_floor : ℕ) (reads : Result ℕ × Result ℕ) (bank : ℕ) (q : Proof)
      → IsStarted dslc reads bank q
      → ((p : Proof) × (try_boot_bank hal crypto check layout s dslc svn_floor reads bank
            ≡ eligible p))
        × ((index : ℕ) × (key_index_of reads ≡ some index))
  IsStarted-eligible dslc svn_floor reads bank q
        (a, (bs, e, m, fits, b, (index, i, (sig, r, signed)))) =
      let j = IsKeyIndex-key_index_of reads index i in
      let (key, k, v) = IsSigned-load_key dslc index sig _ signed in
      (
        try_boot_bank-eligible hal crypto check layout s dslc svn_floor reads bank q
            (a, (bs, e, m, fits, b, (index, j, (key, k, (sig, r, v))))),
        (index, j),
      )
