-- ===== src/Cloud.antt =====
-- toobloader/core/boot_cloud_cmd.c and its header: signed commands of the cloud. The decoder of their
-- envelope is generated, and a parameter; the pointers to the drivers are taken to be present, and the
-- control-flow tokens change nothing without a fault.
mod Tests
pub mod Accepted
pub mod Keys
use toob_loader.Common.{ℕ, zero, suc, ◌+◌, ◌-◌, ◌*◌, ◌/◌, Bool, true, false, not, ◌&&◌, ◌||◌}
use toob_loader.Common.{
  ltb, leb, ◌==◌, if◌then◌else◌, List, [], length, take, drop, Option, none, some, ◌++◌,
}
use toob_loader.Status.{
  Status, verify, not_found, not_supported, invalid_arg, downgrade, cmd_replay, flash_hw, is_ok,
  Result, ok, err, stuck,
}
use toob_loader.Hal.{FlashHal, CryptoHal, SignatureHal, CounterHal}
use toob_loader.Flow.{Action, ◌>>=◌, ◌>>◌, continue, done, give, require, of_status}
use toob_loader.Identity.{derive_device_id}
use toob_loader.Tbm1.Layout.{u32_at}
use toob_loader.Journal.{Journal, Sector, same_bytes}
use toob_loader.Journal.Wire.{u32_bytes}
use toob_loader.Journal.Migrate.{patch, version_fields}
use toob_loader.Journal.Init.{get_tmr}
use toob_loader.Journal.UpdateTmr.{update_tmr, read_counter_safe}
use toob_loader.Rstore.{Desc, rstore_read, rstore_write}
use toob_loader.Verify.{not_all_zeros}

-- `toob_cloud_cmd_envelope_t`; `params` is `none` for a null pointer.
pub record CommandEnvelope : Type 0 where
  pub device_id : List ℕ
  pub command : ℕ
  pub counter_min : ℕ
  pub issued_at : ℕ
  pub params : Option (List ℕ)
  pub command_signature : List ℕ

-- What `cbor_decode_toob_cloud_cmd` fills in: the envelope, and how many bytes it took.
pub record Decoded : Type 0 where
  pub envelope : CommandEnvelope
  pub decoded_len : ℕ

-- `TOOB_CMD_ROTATE_KEY`, `TOOB_CMD_MAX_BURN_STEPS` and `CLOUD_CMD_SIG_CBOR_SIZE`
abbrev pub cmd_rotate_key : ℕ
cmd_rotate_key = 4

abbrev pub max_burn_steps : ℕ
max_burn_steps = 4

abbrev pub sig_cbor_size : ℕ
sig_cbor_size = 68

-- The fields of `toob_kdm_t`, which is a record of 128 bytes.
abbrev pub kdm_size : ℕ
kdm_size = 128

abbrev pub kdm_sequence_of : List ℕ → ℕ
kdm_sequence_of kdm = u32_at kdm 0

abbrev pub kdm_pubkey_of : List ℕ → List ℕ
kdm_pubkey_of kdm = take 32 (drop 4 kdm)

abbrev pub kdm_signature_of : List ℕ → List ℕ
kdm_signature_of kdm = take 64 (drop 36 kdm)

abbrev pub kdm_signed_of : List ℕ → List ℕ
kdm_signed_of kdm = take 36 kdm

-- `wal_tmr_payload_t.last_accepted_issued_at`
abbrev pub last_issued_at_of : List ℕ → ℕ
last_issued_at_of tmr = u32_at tmr 88

-- The payload with another `last_accepted_issued_at`, of the current version.
abbrev pub with_issued_at : List ℕ → ℕ → List ℕ
with_issued_at tmr issued_at = patch (patch tmr 88 (u32_bytes issued_at)) 0 version_fields

module _ {S : Type 0} (hal : FlashHal S) (crypto : CryptoHal) (signatures : SignatureHal)
    (counter : CounterHal S) (kdm_store : Desc) where
  -- The key of eFuse slot 1, for a device that is not provisioned.
  unfoldable pub fallback_key : S → Result (List ℕ)
  fallback_key s = elim counter.read_dslc [
    | none ↦ err not_found
    | some read_dslc ↦ elim (read_dslc s) [
      | ok dslc ↦
          if dslc == 0
          then elim (crypto.read_pubkey 1) [
            | ok key ↦ ok key
            | err e ↦ err not_found
            | stuck ↦ err not_found
          ]
          else err not_found
      | err e ↦ err not_found
      | stuck ↦ err not_found
    ]
  ]

  -- The key of a record of the store, with the signature of the root key.
  unfoldable pub key_of_kdm : S → List ℕ → Result (List ℕ)
  unfolding fallback_key
  key_of_kdm s kdm = elim (crypto.read_pubkey 0) [
    | ok root ↦
        if not (not_all_zeros root)
        then err verify
        else if is_ok (signatures.verify_signature (kdm_signed_of kdm) (kdm_signature_of kdm) root)
        then ok (kdm_pubkey_of kdm)
        else fallback_key s
    | err e ↦ err not_found
    | stuck ↦ err not_found
  ]

  -- `load_active_cloud_key`. The sequence number that it puts out besides is not used.
  unfoldable pub load_active_cloud_key : S → Result (List ℕ) × S
  unfolding key_of_kdm fallback_key
  load_active_cloud_key s =
      let (kdm, s') = rstore_read hal kdm_store s in
      elim kdm [
        | ok record_bytes ↦ (key_of_kdm s' record_bytes, s')
        | err e ↦ (fallback_key s', s')
        | stuck ↦ (fallback_key s', s')
      ]

  -- `advance_monotonic_counter`, `n` times
  unfoldable pub burn : ℕ → Action S (Unit {0})
  burn zero s = (ok tt, s)
  burn (suc n) s = elim counter.advance_monotonic_counter [
    | none ↦ (err not_supported, s)
    | some advance ↦
        let (code, s') = advance s in
        let later = burn n s' in if is_ok code then later else (err flash_hw, s')
  ]

  -- The sequence number of the record in the store, 0 without one.
  unfoldable pub stored_sequence : Result (List ℕ) → ℕ
  stored_sequence (ok kdm) = kdm_sequence_of kdm
  stored_sequence (err e) = 0
  stored_sequence stuck = 0

  -- The parameters of ROTATE_KEY: a record that the root key has signed, with a higher number.
  unfoldable pub write_kdm : List ℕ → Action S (Unit {0})
  unfolding stored_sequence
  write_kdm kdm s = elim (crypto.read_pubkey 0) [
    | ok root ↦
        let (current, s') = rstore_read hal kdm_store s in
        let (code, s'') = rstore_write hal kdm_store s' kdm in
        if not (is_ok (signatures.verify_signature (kdm_signed_of kdm) (kdm_signature_of kdm) root))
        then (err verify, s)
        else if leb (kdm_sequence_of kdm) (stored_sequence current)
        then (err downgrade, s')
        else (of_status code, s'')
    | err e ↦ (err not_found, s)
    | stuck ↦ (err not_found, s)
  ]

  unfoldable pub rotate_key : CommandEnvelope → Action S (Unit {0})
  unfolding write_kdm
  rotate_key cmd s =
      let rotated : Result (Unit {0}) × S = elim cmd.params [
        | none ↦ (err invalid_arg, s)
        | some kdm ↦ if length kdm == kdm_size then write_kdm kdm s else (err invalid_arg, s)
      ] in
      if cmd.command == cmd_rotate_key then rotated else (ok tt, s)

-- The journal in memory with the hardware.
pub record World (S : Type 0) : Type 0 where
  pub journal : Journal
  pub hw : S

-- A step on the hardware alone.
abbrev pub on_hw : {S A : Type 0} → Action S A → Action (World S) A
on_hw m w = let (r, s) = m w.hw in (r, record w { hw = s })

module _ {S : Type 0} (hal : FlashHal S) (sectors : List Sector) (crypto : CryptoHal)
    (signatures : SignatureHal) (counter : CounterHal S) (kdm_store : Desc)
    (decode : List ℕ → Option Decoded) where
  -- The device identifier has to be that of the command.
  unfoldable pub check_device : CommandEnvelope → Result (Unit {0})
  check_device cmd = elim (derive_device_id crypto) [
    | ok local_id ↦ if same_bytes cmd.device_id local_id then ok tt else err verify
    | err e ↦ err verify
    | stuck ↦ err verify
  ]

  -- `boot_read_monotonic_counter_safe`, for a driver that can advance the counter.
  unfoldable pub read_counter : S → Result ℕ
  read_counter s = elim counter.advance_monotonic_counter [
    | none ↦ err not_supported
    | some advance ↦ read_counter_safe (counter.counter_reads s).0 (counter.counter_reads s).1
  ]

  -- `issued_at` of the last command that was accepted, 0 where the payload cannot be had.
  unfoldable pub last_accepted : Journal → ℕ
  last_accepted j = elim (get_tmr j) [ ok tmr ↦ last_issued_at_of tmr | err e ↦ 0 | stuck ↦ 0 ]

  -- The signature over what stands in front of it in the envelope.
  unfoldable pub check_signature : List ℕ → Decoded → Action S (Unit {0})
  check_signature buf d s =
      let (r, s') = load_active_cloud_key hal crypto signatures counter kdm_store s in
      elim r [
        | ok key ↦
            if leb d.decoded_len sig_cbor_size
            then (err invalid_arg, s')
            else if is_ok (
                signatures.verify_signature (take (d.decoded_len - sig_cbor_size) buf)
                  d.envelope.command_signature key)
            then (ok tt, s')
            else (err verify, s')
        | err e ↦ (err not_found, s')
        | stuck ↦ (err not_found, s')
      ]

  -- What the decoder makes of the buffer.
  unfoldable pub decode_buffer : List ℕ → Result Decoded
  decode_buffer buf = elim (decode buf) [ none ↦ err invalid_arg | some d ↦ ok d ]

  -- `issued_at` is kept in the payload, whatever comes of the write.
  unfoldable pub persist_issued_at : CommandEnvelope → Action (World S) (Unit {0})
  persist_issued_at cmd w =
      let (first, second) = counter.counter_reads w.hw in
      elim (get_tmr w.journal) [
        | ok tmr ↦
            let (_, j, s) =
              update_tmr hal sectors crypto.hash first second w.journal w.hw
                (with_issued_at tmr cmd.issued_at) in
            (ok tt, record { journal = j; hw = s })
        | err e ↦ (ok tt, w)
        | stuck ↦ (ok tt, w)
      ]

  -- The part behind the signature: the counter is advanced, a new key is stored.
  unfoldable pub execute_command : CommandEnvelope → ℕ → Action (World S) ℕ
  execute_command cmd current = do
    require (leb (cmd.counter_min - current) max_burn_steps) invalid_arg
    on_hw (burn hal crypto signatures counter kdm_store (cmd.counter_min - current))
    on_hw (rotate_key hal crypto signatures counter kdm_store cmd)
    persist_issued_at cmd
    give (ok cmd.command)

  -- `boot_cloud_cmd_evaluate_buffer`, from the decoded envelope on.
  unfoldable pub evaluate_decoded : List ℕ → Decoded → Action (World S) ℕ
  evaluate_decoded buf d w =
      (do
        give (check_device d.envelope)
        current ← give (read_counter w.hw)
        require (ltb current d.envelope.counter_min) downgrade
        require (ltb (last_accepted w.journal) d.envelope.issued_at) cmd_replay
        on_hw (check_signature buf d)
        execute_command d.envelope current)
        w

  -- `boot_cloud_cmd_evaluate_buffer`; the result is `out_cmd`.
  unfoldable pub evaluate_buffer : List ℕ → Action (World S) ℕ
  evaluate_buffer buf w = continue (decode_buffer buf, w) (evaluate_decoded buf)

  -- `boot_cloud_cmd_evaluate_flash`, with the sizes of the arena and of the command slot.
  unfoldable pub evaluate_flash : ℕ → ℕ → ℕ → Action (World S) ℕ
  evaluate_flash arena_size slot_addr slot_size w =
      let max_read = if ltb slot_size arena_size then slot_size else arena_size in
      elim (hal.read w.hw slot_addr max_read) [
        | ok bs ↦
            if ltb arena_size ((max_read + 7) / 8 * 8 + 256)
            then (err invalid_arg, w)
            else evaluate_buffer bs w
        | err e ↦ (err e, w)
        | stuck ↦ (stuck, w)
      ]
