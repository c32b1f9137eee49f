-- ===== src/State/Update.antt =====
-- The end of an update in boot_state.c: which errors reject it, and which go to the panic handler.
use toob_loader.Common.{ℕ, ◌≡◌, refl, true, if◌then◌else◌, List, Option, none, some}
use toob_loader.Status.{
  Status, ok_status, verify, downgrade, invalid_arg, flash_bounds, invalid_state, not_found,
  manifest_corrupt, manifest_version, manifest_product, defer, is_ok, is_rejectable,
}
use toob_loader.Hal.{FlashHal, CryptoHal}
use toob_loader.Journal.{Sector}
use toob_loader.Journal.Intent
use toob_loader.Journal.Append.{append}
use toob_loader.State.{Machine, with_intent}

-- `ERR_TABLE`: the intent that follows the rejection
unfoldable pub reject_to : Status → Option ℕ
reject_to verify = some Intent.none_intent
reject_to downgrade = some Intent.none_intent
reject_to invalid_arg = some Intent.none_intent
reject_to flash_bounds = some Intent.none_intent
reject_to invalid_state = some Intent.none_intent
reject_to not_found = some Intent.none_intent
reject_to manifest_corrupt = some Intent.none_intent
reject_to manifest_version = some Intent.none_intent
reject_to manifest_product = some Intent.none_intent
reject_to defer = some Intent.sleep_backoff
reject_to _ = none

module _ {S : Type 0} (hal : FlashHal S) (sectors : List Sector) (crypto : CryptoHal) where
  -- The rejection of an update.
  unfoldable pub reject_update : Machine S → ℕ → Status × Machine S
  reject_update b next =
      let txn = with_intent b.txn next in
      let (code, j, s) = append hal sectors crypto.hash b.journal b.hardware txn in
      let b1 = record b { journal = j; hardware = s } in
      (code, if is_ok code then record b1 { txn = txn } else b1)

  -- `_handle_update_result`
  unfoldable pub handle_update_result : Machine S → Status → Status × Machine S
  handle_update_result b code =
      if is_ok code
      then (ok_status, b)
      else elim (reject_to code) [ none ↦ (code, b) | some next ↦ reject_update b next ]

  -- An error that the status codes call rejectable is not passed on: the update is rejected by an entry,
  -- and what the caller gets is the outcome of appending that entry.
  handle_update_result-rejectable :
      (b : Machine S) (code : Status)
      → is_rejectable code ≡ true
      → (next : ℕ) × (reject_to code ≡ some next)
        × (handle_update_result b code ≡ reject_update b next)
  unfolding handle_update_result reject_to is_rejectable
  handle_update_result-rejectable b verify h = (Intent.none_intent, refl, refl)
  handle_update_result-rejectable b downgrade h = (Intent.none_intent, refl, refl)
  handle_update_result-rejectable b invalid_arg h = (Intent.none_intent, refl, refl)
  handle_update_result-rejectable b flash_bounds h = (Intent.none_intent, refl, refl)
  handle_update_result-rejectable b invalid_state h = (Intent.none_intent, refl, refl)
  handle_update_result-rejectable b not_found h = (Intent.none_intent, refl, refl)
  handle_update_result-rejectable b defer h = (Intent.sleep_backoff, refl, refl)
  handle_update_result-rejectable b _ h = absurd (cc h)
