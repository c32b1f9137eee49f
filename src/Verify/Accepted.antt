-- ===== src/Verify/Accepted.antt =====
-- What an accepted manifest has gone through.
use toob_loader.Common.{
  ℕ, ◌+◌, ◌≤◌, ◌<◌, ◌≡◌, refl, ◌≢◌, ap, ◌∙◌, ◌⊎◌, inl, inr, arith, Bool, true, false,
}
use toob_loader.Common.{ltb, if◌then◌else◌, List, length, take, Option-cases, some}
use toob_loader.Status.{Status, ok_status, not_found, is_ok, is_ok→≡, Result-cases, ok, err}
use toob_loader.Hal.{CryptoHal, SignatureHal}
use toob_loader.Effect.{is_buffer_within}
use toob_loader.Verify.{Envelope, WorkBuffer, check_bounds, check_revoked, check_ed25519, check_pqc}
use toob_loader.Verify.{
  is_pqc_required, is_not_found, bytes_of, not_all_zeros, verify_manifest_envelope,
}

-- What the bounds allow, in words of the numbers.
bounds :
    (env : Envelope) (work : WorkBuffer)
    → check_bounds env work ≡ ok_status
    → (0 < env.manifest_size) × (env.manifest_size ≤ length work.content)
unfolding check_bounds
bounds env work h = ground arith

not_found-of :
    (e : Status)
    → is_ok e ≡ false
    → (if is_not_found e then ok_status else e) ≡ ok_status
    → e ≡ not_found
not_found-of not_found k h = refl
not_found-of ok_status k h = absurd (cc k)
not_found-of _ k h = absurd (cc h)

failed : (e : Status) → is_ok e ≡ false → e ≢ ok_status
failed e k h = cc (ap is_ok h)

-- A read of a key that fails does not report `BOOT_OK`.
pub record KeyReadsFail (crypto : CryptoHal) : Type 0 where
  pub key_read_fails : (i : ℕ) (e : Status) → crypto.read_pubkey i ≡ err e → is_ok e ≡ false

-- What each check guarantees of `env`.
module _ (crypto : CryptoHal) (signatures : SignatureHal) (env : Envelope) (work : WorkBuffer) where
  -- The key has no successor, or is the last one.
  abbrev pub NotRevoked : Type 0
  NotRevoked =
      (env.key_index ≡ 255)
      ⊎ (crypto.read_pubkey (env.key_index + (if ltb env.key_index 255 then 1 else 0))
          ≡ err not_found)

  -- The manifest has a valid signature of the key asked for, and that key is not a trivial one.
  abbrev pub Signed : Type 0
  Signed =
      (key : List ℕ) × (crypto.read_pubkey env.key_index ≡ ok key)
      × (not_all_zeros key ≡ true)
      × (signatures.verify_signature (take env.manifest_size work.content) env.signature_ed25519 key
          ≡ ok_status)

  -- The second signature lies in the manifest with its key, and is valid.
  abbrev pub PqcSigned : Type 0
  PqcSigned =
      (check : List ℕ → List ℕ → List ℕ → Status) × (signatures.verify_pqc ≡ some check)
      × (is_buffer_within env.pubkey_pqc.start env.pubkey_pqc.len work.base env.manifest_size
          ≡ true)
      × (is_buffer_within env.signature_pqc.start env.signature_pqc.len work.base env.manifest_size
          ≡ true)
      × (not_all_zeros (bytes_of work env.pubkey_pqc) ≡ true)
      × (check (take env.manifest_size work.content) (bytes_of work env.signature_pqc)
            (bytes_of work env.pubkey_pqc)
          ≡ ok_status)

  revoked : KeyReadsFail crypto → check_revoked crypto env.key_index ≡ ok_status → NotRevoked
  unfolding check_revoked
  revoked fails h =
      elim (Result-cases
        (crypto.read_pubkey (env.key_index + (if ltb env.key_index 255 then 1 else 0)))) [
          | inl (key, e) ↦ inl (ground (arith, e))
          | inr (inl (code, e)) ↦ inr (
              e
              ∙ ap err
                  (not_found-of code (fails.key_read_fails _ code e) (rw (check_revoked, e) at h)))
          | inr (inr e) ↦ absurd (cc (rw (check_revoked, e) at h))
        ]

  signed : KeyReadsFail crypto → check_ed25519 crypto signatures env work ≡ ok_status → Signed
  unfolding check_ed25519
  signed fails h = elim (Result-cases (crypto.read_pubkey env.key_index)) [
    | inl (key, e) ↦ (key, e, ground arith, is_ok→≡ _ (ground arith))
    | inr (inl (code, e)) ↦
        absurd (failed code (fails.key_read_fails _ code e) (rw (check_ed25519, e) at h))
    | inr (inr e) ↦ absurd (cc (rw (check_ed25519, e) at h))
  ]

  -- The device or the envelope asks for a second signature.
  abbrev pub PqcAsked : Type 0
  PqcAsked = (signatures.is_pqc_enforced ≡ some true) ⊎ (env.pqc_hybrid_active ≡ true)

  is_pqc_required-asked : PqcAsked → is_pqc_required crypto signatures env ≡ true
  unfolding is_pqc_required
  is_pqc_required-asked (inl e) = rw (is_pqc_required, e) refl
  is_pqc_required-asked (inr e) = ground (arith, e)

  pqc_signed :
      is_pqc_required crypto signatures env ≡ true
      → check_pqc crypto signatures env work ≡ ok_status
      → PqcSigned
  unfolding check_pqc
  pqc_signed required h = elim (Option-cases signatures.verify_pqc) [
    | inl e ↦ absurd (cc (rw (check_pqc, required, e) at h))
    | inr (check, e) ↦
        (check, e, ground arith, ground arith, ground arith, is_ok→≡ _ (ground arith))
  ]

  -- A manifest that `boot_verify_manifest_envelope` accepts lies in the buffer, was signed under the
  -- key asked for, which is no trivial one and which no later key revokes, and where the device or the
  -- envelope asks for a second signature, that one and its key lie inside the manifest and it is valid.
  -- A read of a key that fails must not report `BOOT_OK`.
  pub verify_manifest_envelope-accepts :
      (pqc_enabled : Bool)
      → KeyReadsFail crypto
      → verify_manifest_envelope crypto signatures pqc_enabled env work ≡ ok_status
      → (0 < env.manifest_size)
        × (env.manifest_size ≤ length work.content)
        × NotRevoked
        × Signed
        × (pqc_enabled ≡ true → PqcAsked → PqcSigned)
  unfolding verify_manifest_envelope
  verify_manifest_envelope-accepts pqc_enabled fails h =
      let b : check_bounds env work ≡ ok_status = is_ok→≡ _ (ground arith) in
      let r : check_revoked crypto env.key_index ≡ ok_status = is_ok→≡ _ (ground arith) in
      let s : check_ed25519 crypto signatures env work ≡ ok_status = is_ok→≡ _ (ground arith) in
      let (positive, fits) = bounds env work b in
      (
        positive,
        fits,
        revoked fails r,
        signed fails s,
        λ enabled required.
            pqc_signed (is_pqc_required-asked required)
              (rw (verify_manifest_envelope, b, r, s, enabled) at h),
      )
