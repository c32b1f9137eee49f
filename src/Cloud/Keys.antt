-- ===== src/Cloud/Keys.antt =====
-- Which key the commands of the cloud are checked with, and when a flash command can be accepted.
use toob_loader.Common.{ℕ, ◌+◌, ◌*◌, ◌/◌, ◌<◌, ◌≡◌, ◌≢◌, refl, sym, arith, true}
use toob_loader.Common.{ltb, if◌then◌else◌, List, Option, some, ap, ◌∙◌, ==_iff, ◌==◌, Option-cases}
use toob_loader.Common.{Bool-cases, inl, inr, lt→ltb}
use toob_loader.Status.{ok_status, is_ok, is_ok→≡, Result, ok, Result-cases}
use toob_loader.Hal.{FlashHal, CryptoHal, SignatureHal, CounterHal}
use toob_loader.Journal.{Sector}
use toob_loader.Rstore.{Desc, rstore_read}
use toob_loader.Verify.{not_all_zeros}
use toob_loader.Cloud.{
  fallback_key, key_of_kdm, load_active_cloud_key, kdm_signed_of, kdm_signature_of, kdm_pubkey_of,
  World, Decoded, evaluate_flash,
}

ok_inj : {xs ys : List ℕ} → ok xs ≡ ok ys → xs ≡ ys
ok_inj h = cc

-- The keys of a device.
module _ {S : Type 0} (hal : FlashHal S) (crypto : CryptoHal) (signatures : SignatureHal)
    (counter : CounterHal S) (kdm_store : Desc) where
  -- The device is provisioned: the first byte of the DSLC is not 0, in each state of the hardware, or it
  -- cannot be read.
  abbrev pub IsProvisioned : Type 0
  IsProvisioned =
      (read_dslc : S → Result ℕ) (s : S) → counter.read_dslc ≡ some read_dslc → read_dslc s ≢ ok 0

  no_fallback :
      (s : S) (key : List ℕ)
      → IsProvisioned
      → fallback_key hal crypto signatures counter kdm_store s ≢ ok key
  unfolding fallback_key
  no_fallback s key provisioned h = elim (Option-cases counter.read_dslc) [
    | inl absent ↦ cc (rw (fallback_key, absent) at h)
    | inr (read_dslc, d) ↦ elim (Result-cases (read_dslc s)) [
      | inl (dslc, r) ↦ elim (Bool-cases (dslc == 0)) [
        | inl zeroed ↦ provisioned read_dslc s d (r ∙ ap ok ((==_iff dslc 0).0 zeroed))
        | inr set ↦ cc (rw (fallback_key, d, r, set) at h)
      ]
      | inr (inl (code, r)) ↦ cc (rw (fallback_key, d, r) at h)
      | inr (inr r) ↦ cc (rw (fallback_key, d, r) at h)
    ]
  ]

  -- `key` stands in a record that the root key, which is no trivial one, has signed.
  abbrev pub IsDelegated : List ℕ → List ℕ → Type 0
  IsDelegated kdm key =
      (root : List ℕ) × (crypto.read_pubkey 0 ≡ ok root)
      × (not_all_zeros root ≡ true)
      × (signatures.verify_signature (kdm_signed_of kdm) (kdm_signature_of kdm) root ≡ ok_status)
      × (key ≡ kdm_pubkey_of kdm)

  delegated :
      (s : S) (kdm key : List ℕ)
      → IsProvisioned
      → key_of_kdm hal crypto signatures counter kdm_store s kdm ≡ ok key
      → IsDelegated kdm key
  unfolding key_of_kdm
  delegated s kdm key provisioned h = elim (Result-cases (crypto.read_pubkey 0)) [
    | inr (inl (code, r)) ↦ absurd (cc (rw (key_of_kdm, r) at h))
    | inr (inr r) ↦ absurd (cc (rw (key_of_kdm, r) at h))
    | inl (root, r) ↦ elim (Bool-cases (not_all_zeros root)) [
      | inr trivial ↦ absurd (cc (rw (key_of_kdm, r, trivial) at h))
      | inl real ↦
          elim (Bool-cases
            (is_ok (signatures.verify_signature (kdm_signed_of kdm) (kdm_signature_of kdm) root))) [
              | inl good ↦ (
                root,
                r,
                real,
                is_ok→≡ _ good,
                ok_inj (sym (rw (key_of_kdm, r, real, good) at h)),
              )
              | inr bad ↦
                  absurd (no_fallback s key provisioned (rw (key_of_kdm, r, real, bad) at h))
            ]
    ]
  ]

  -- On a device whose DSLC does not read as 0 in any state of the hardware the key that
  -- `load_active_cloud_key` gives stands in the record that the store holds, and the root key, which is
  -- no trivial one, has signed that record.
  pub load_active_cloud_key-IsDelegated :
      (s : S) (key : List ℕ)
      → IsProvisioned
      → (load_active_cloud_key hal crypto signatures counter kdm_store s).0 ≡ ok key
      → (kdm : List ℕ) × ((rstore_read hal kdm_store s).0 ≡ ok kdm) × IsDelegated kdm key
  unfolding load_active_cloud_key
  load_active_cloud_key-IsDelegated s key provisioned h =
      elim (Result-cases (rstore_read hal kdm_store s).0) [
        | inl (kdm, r) ↦ (
          kdm,
          r,
          delegated (rstore_read hal kdm_store s).1 kdm key provisioned
              (rw (load_active_cloud_key, r) at h),
        )
        | inr (inl (code, r)) ↦ absurd (
            no_fallback (rstore_read hal kdm_store s).1 key provisioned
              (rw (load_active_cloud_key, r) at h))
        | inr (inr r) ↦ absurd (
            no_fallback (rstore_read hal kdm_store s).1 key provisioned
              (rw (load_active_cloud_key, r) at h))
      ]

-- With a command slot that leaves less than 256 bytes of the arena free, no command in flash is ever
-- accepted, and nothing changes.
pub evaluate_flash-no_room :
    {S : Type 0} (hal : FlashHal S) (sectors : List Sector) (crypto : CryptoHal)
    (signatures : SignatureHal) (counter : CounterHal S) (kdm_store : Desc)
    (decode : List ℕ → Option Decoded) (arena_size slot_addr slot_size : ℕ) (w : World S)
    → arena_size < slot_size + 256
    → ((evaluate_flash hal sectors crypto signatures counter kdm_store decode arena_size slot_addr
          slot_size w).1
        ≡ w)
      × ((c : ℕ)
          → (evaluate_flash hal sectors crypto signatures counter kdm_store decode arena_size
              slot_addr slot_size w).0
            ≢ ok c)
unfolding evaluate_flash
evaluate_flash-no_room hal sectors crypto signatures counter kdm_store decode arena_size slot_addr
      slot_size w small =
    let max_read = if ltb slot_size arena_size then slot_size else arena_size in
    let full : ltb arena_size ((max_read + 7) / 8 * 8 + 256) ≡ true = lt→ltb _ _ (ground arith) in
    elim (Result-cases (hal.read w.hw slot_addr max_read)) [
      | inl (bs, r) ↦ rw (evaluate_flash, r, full) (refl, λ c h. cc h)
      | inr (inl (code, r)) ↦ rw (evaluate_flash, r) (refl, λ c h. cc h)
      | inr (inr r) ↦ rw (evaluate_flash, r) (refl, λ c h. cc h)
    ]
