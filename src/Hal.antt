-- ===== src/Hal.antt =====
-- common/include/boot_hal.h: the flash driver, which the core calls through function pointers.
-- The drivers are not part of this repository, so that they are a parameter: `S` is the state of the
-- hardware, and a call that may change it returns the new state, also when it fails.
use toob_loader.Common.{Bool, false, ℕ, ◌+◌, ◌≤◌, ◌≡◌, List, Option, length, take, drop}
use toob_loader.Status.{Status, Result, ok, err, is_ok}

-- `flash_hal_t`, the members that the core uses.
pub record FlashHal (S : Type 0) : Type 0 where
  pub read : S → ℕ → ℕ → Result (List ℕ)
  pub write : S → ℕ → List ℕ → Status × S
  pub erase_sector : S → ℕ → Status × S
  pub max_sector_size : ℕ
  pub max_erase_cycles : ℕ
  pub write_align : ℕ
  pub erased_value : ℕ
  pub erase_time_us_max : ℕ
  pub write_time_us_page : ℕ
  pub get_supply_mv : Option (S → Result ℕ)

-- A read that fails does not report `BOOT_OK`.
pub record ReadErrorsFail {S : Type 0} (hal : FlashHal S) : Type 0 where
  pub read_fails : (s : S) (a n : ℕ) (e : Status) → hal.read s a n ≡ err e → is_ok e ≡ false

-- A read that succeeds fills the whole buffer.
pub record ReadsWhole {S : Type 0} (hal : FlashHal S) : Type 0 where
  pub read_whole : (s : S) (a n : ℕ) (xs : List ℕ) → hal.read s a n ≡ ok xs → length xs ≡ n

-- What the core relies on when it reads a range in pieces.
pub record ReadsInParts {S : Type 0} (hal : FlashHal S) : Type 0 where
  pub read-length : (s : S) (a n : ℕ) (xs : List ℕ) → hal.read s a n ≡ ok xs → length xs ≡ n
  pub read_part :
      (s : S) (a n : ℕ) (xs : List ℕ) (off k : ℕ)
      → hal.read s a n ≡ ok xs
      → off + k ≤ n
      → hal.read s (a + off) k ≡ ok (take k (drop off xs))

-- `crypto_hal_t`, the members that the core uses. `hash` stands for `hash_init`, one `hash_update` for
-- each segment and `hash_finish`.
pub record CryptoHal : Type 0 where
  pub read_chip_uid : Result (List ℕ)
  pub read_pubkey : ℕ → Result (List ℕ)
  pub hash : List (List ℕ) → Result (List ℕ)

-- `slot_exec_model_t` of common/include/boot_slot_caps.h
pub data ExecModel : Type 0 where
  fixed relocatable xip_remap bank_swap : ExecModel

-- `slot_caps_t`, the members that the core uses; `none` is a function pointer that is not set.
pub record SlotCaps (S : Type 0) : Type 0 where
  pub exec_model : ExecModel
  pub bank_flip : Option (S → ℕ → Status × S)
  pub xip_remap_commit : Option (S → ℕ → Status × S)
  pub get_active_slot : Option (S → Result ℕ)

-- `crypto_hal_t`, the members that check signatures: the message, the signature and the key. A driver
-- answers the same question the same way. `none` is a function pointer that is not set.
pub record SignatureHal : Type 0 where
  pub verify_signature : List ℕ → List ℕ → List ℕ → Status
  pub is_pqc_enforced : Option Bool
  pub verify_pqc : Option (List ℕ → List ℕ → List ℕ → Status)

-- `crypto_hal_t`, the members for the life cycle of the device: the first byte of the DSLC, what two
-- reads of the monotonic counter bring, and its advance.
pub record CounterHal (S : Type 0) : Type 0 where
  pub read_dslc : Option (S → Result ℕ)
  pub counter_reads : S → Result ℕ × Result ℕ
  pub advance_monotonic_counter : Option (S → Status × S)

-- `confirm_hal_t`, the members that the core uses. A positive answer uses the nonce up.
pub record ConfirmHal (S : Type 0) : Type 0 where
  pub check_ok : S → ℕ → Bool × S
  pub clear : S → Status × S
