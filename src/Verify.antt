-- ===== src/Verify.antt =====
-- toobloader/core/boot_verify.c: the signatures over a manifest. The pointers to the drivers and the
-- copy of the envelope on the stack are taken to be present; the control-flow tokens change nothing
-- without a fault. The second call of `verify_signature` that TOOB_DOUBLE_VERIFY adds gets the answer
-- of the first one.
mod Tests
pub mod Accepted
use toob_loader.Common.{ℕ, ◌+◌, ◌-◌, Bool, true, false, not, ◌&&◌, ◌||◌, bit_and, bit_or}
use toob_loader.Common.{
  ltb, ◌==◌, if◌then◌else◌, List, [], ◌∷◌, length, take, drop, Option, none, some,
}
use toob_loader.Status.{
  Status, ok_status, not_found, invalid_arg, not_supported, downgrade, timeout, verify, is_ok,
}
use toob_loader.Status.{Result, ok, err, stuck}
use toob_loader.Hal.{CryptoHal, SignatureHal}
use toob_loader.Effect.{is_buffer_within}

-- The loop of `verify_not_all_zeros_glitch_safe`, and its test.
unfoldable pub or_bytes : ℕ → List ℕ → ℕ
or_bytes acc [] = acc
or_bytes acc (b ∷ bs) = or_bytes (bit_or acc b) bs

unfoldable pub and_bytes : ℕ → List ℕ → ℕ
and_bytes acc [] = acc
and_bytes acc (b ∷ bs) = and_bytes (bit_and acc b) bs

unfoldable pub not_all_zeros : List ℕ → Bool
unfolding or_bytes and_bytes
not_all_zeros bs = not (or_bytes 0 bs == 0) && not (and_bytes 255 bs == 255)

-- A piece of the envelope: its address and its length. Address 0 is the null pointer.
pub record Span : Type 0 where
  pub start : ℕ
  pub len : ℕ

-- `boot_verify_envelope_t`
pub record Envelope : Type 0 where
  pub manifest_size : ℕ
  pub signature_ed25519 : List ℕ
  pub key_index : ℕ
  pub pqc_hybrid_active : Bool
  pub signature_pqc : Span
  pub pubkey_pqc : Span

-- The work buffer: where it stands, and what it holds.
pub record WorkBuffer : Type 0 where
  pub base : ℕ
  pub content : List ℕ

-- The bytes of a span inside the buffer.
unfoldable pub bytes_of : WorkBuffer → Span → List ℕ
bytes_of work span = take span.len (drop (span.start - work.base) work.content)

abbrev pub is_not_found : Status → Bool
is_not_found not_found = true
is_not_found _ = false

-- The bounds of the manifest in the buffer.
unfoldable pub check_bounds : Envelope → WorkBuffer → Status
check_bounds env work =
    if env.manifest_size == 0 || ltb (length work.content) env.manifest_size
    then invalid_arg
    else if ltb (18446744073709551615 - work.base) env.manifest_size
    then invalid_arg
    else ok_status

-- The downgrade check: the key behind the one that is asked for must be absent.
unfoldable pub check_revoked : CryptoHal → ℕ → Status
check_revoked crypto key_index =
    let next = key_index + (if ltb key_index 255 then 1 else 0) in
    elim (crypto.read_pubkey next) [
      | ok key ↦ if key_index == 255 then ok_status else downgrade
      | err e ↦ if is_not_found e then ok_status else e
      | stuck ↦ timeout
    ]

module _ (crypto : CryptoHal) (signatures : SignatureHal) where
  -- The root key, and the Ed25519 signature over the manifest.
  unfoldable pub check_ed25519 : Envelope → WorkBuffer → Status
  check_ed25519 env work = elim (crypto.read_pubkey env.key_index) [
    | ok key ↦
        if not (not_all_zeros key)
        then verify
        else if is_ok (
            signatures.verify_signature (take env.manifest_size work.content) env.signature_ed25519
              key)
        then ok_status
        else verify
    | err e ↦ e
    | stuck ↦ timeout
  ]

  -- `pqc_enforced || local_env.pqc_hybrid_active`
  unfoldable pub is_pqc_required : Envelope → Bool
  is_pqc_required env =
      (elim signatures.is_pqc_enforced [ none ↦ false | some enforced ↦ enforced ])
      || env.pqc_hybrid_active

  -- The second signature, where it is asked for.
  unfoldable pub check_pqc : Envelope → WorkBuffer → Status
  unfolding is_pqc_required bytes_of
  check_pqc env work =
      let inside =
        λ (span : Span). is_buffer_within span.start span.len work.base env.manifest_size in
      let checked : Status = elim signatures.verify_pqc [
        | none ↦ not_supported
        | some verify_pqc ↦
            if env.signature_pqc.start == 0
              || env.signature_pqc.len == 0
              || (env.pubkey_pqc.start == 0 || env.pubkey_pqc.len == 0)
            then invalid_arg
            else if not (inside env.pubkey_pqc && inside env.signature_pqc)
            then invalid_arg
            else if not (not_all_zeros (bytes_of work env.pubkey_pqc))
            then verify
            else if is_ok (
                verify_pqc (take env.manifest_size work.content) (bytes_of work env.signature_pqc)
                  (bytes_of work env.pubkey_pqc))
            then ok_status
            else verify
      ] in
      if is_pqc_required env then checked else ok_status

  -- `boot_verify_manifest_envelope`; `pqc_enabled` is TOOB_PQC_ENABLED.
  unfoldable pub verify_manifest_envelope : Bool → Envelope → WorkBuffer → Status
  verify_manifest_envelope pqc_enabled env work =
      let bounds = check_bounds env work in
      let revoked = check_revoked crypto env.key_index in
      let signed = check_ed25519 env work in
      if not (is_ok bounds)
      then bounds
      else if not (is_ok revoked)
      then revoked
      else if not (is_ok signed)
      then signed
      else if pqc_enabled
      then check_pqc env work
      else ok_status
