-- ===== src/Status.antt =====
-- common/include/boot_types.h: the status codes, and the results of fallible calls.
use toob_loader.Common.{◌⊎◌, inl, inr}
use toob_loader.Common.{Bool, true, false, ◌≡◌, refl}

-- `boot_status_t`, without its bit patterns: the code only compares these values.
pub data Status : Type 0 where
  ok_status flash flash_align flash_bounds crypto verify timeout power not_supported : Status
  invalid_arg state flash_not_erased counter_exhausted defer ecc_hardfault flash_hw : Status
  not_found wdt_trigger invalid_state wal_full wal_locked recovery_requested : Status
  abi_mismatch downgrade device_locked cmd_replay cmd_device_mismatch : Status
  manifest_corrupt manifest_version manifest_product : Status

-- `s == BOOT_OK`
abbrev pub is_ok : Status → Bool
is_ok ok_status = true
is_ok _ = false

pub is_ok→≡ : (code : Status) → is_ok code ≡ true → code ≡ ok_status
is_ok→≡ ok_status e = refl
is_ok→≡ _ e = cc e

-- `boot_error_is_rejectable`
unfoldable pub is_rejectable : Status → Bool
is_rejectable verify = true
is_rejectable downgrade = true
is_rejectable invalid_arg = true
is_rejectable flash_bounds = true
is_rejectable invalid_state = true
is_rejectable not_found = true
is_rejectable defer = true
is_rejectable _ = false

-- What a call that fills an out parameter gives back. `stuck` is no value of the program: a loop
-- ran out of its fuel.
pub data Result {ℓ} (A : Type ℓ) : Type ℓ where
  ok : A → Result A
  err : Status → Result A
  stuck : Result A

pub Result-cases {ℓ} :
    {A : Type ℓ} (r : Result A)
    → ((a : A) × (r ≡ ok a)) ⊎ (((e : Status) × (r ≡ err e)) ⊎ (r ≡ stuck))
Result-cases (ok a) = inl (a, refl)
Result-cases (err e) = inr (inl (e, refl))
Result-cases stuck = inr (inr refl)
