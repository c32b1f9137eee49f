-- ===== src/Identity.antt =====
-- toobloader/core/utils/boot_identity.c: the secrets that are derived from the chip's identity.
use toob_loader.Common.{ℕ, ◌==◌, ◌||◌, ltb, if◌then◌else◌, List, [], ◌∷◌, length, take}
use toob_loader.Status.{Result, ok, err, stuck, invalid_arg}
use toob_loader.Hal.{CryptoHal}

-- `toob-device-id-v1` and `toob-journal-key-v1` in ASCII
abbrev pub device_id_domain : List ℕ
device_id_domain =
    116
    ∷ (111
        ∷ (111
            ∷ (98
                ∷ (45
                    ∷ (100
                        ∷ (101
                            ∷ (118
                                ∷ (105
                                    ∷ (99
                                        ∷ (101
                                            ∷ (45
                                                ∷ (105
                                                    ∷ (100 ∷ (45 ∷ (118 ∷ (49 ∷ []))))))))))))))))

abbrev pub journal_key_domain : List ℕ
journal_key_domain =
    116
    ∷ (111
        ∷ (111
            ∷ (98
                ∷ (45
                    ∷ (106
                        ∷ (111
                            ∷ (117
                                ∷ (114
                                    ∷ (110
                                        ∷ (97
                                            ∷ (108
                                                ∷ (45
                                                    ∷ (107
                                                        ∷ (101
                                                            ∷ (121
                                                            ∷ (45
                                                            ∷ (118 ∷ (49 ∷ []))))))))))))))))))

module _ (crypto : CryptoHal) where
  -- `kdf_core`
  unfoldable pub kdf_core : List ℕ → Result (List ℕ)
  kdf_core domain_sep = elim crypto.read_chip_uid [
    | ok uid ↦
        if length uid == 0 || ltb 32 (length uid)
        then err invalid_arg
        else elim (crypto.read_pubkey 0) [
          | ok pubkey ↦ crypto.hash (uid ∷ (pubkey ∷ (domain_sep ∷ [])))
          | err e ↦ err e
          | stuck ↦ stuck
        ]
    | err e ↦ err e
    | stuck ↦ stuck
  ]

  -- `boot_derive_device_id`
  unfoldable pub derive_device_id : Result (List ℕ)
  unfolding kdf_core
  derive_device_id = kdf_core device_id_domain

  -- `boot_derive_journal_key`: the digest, cut to 16 bytes
  unfoldable pub derive_journal_key : Result (List ℕ)
  unfolding kdf_core
  derive_journal_key = elim (kdf_core journal_key_domain) [
    | ok digest ↦ ok (take 16 digest)
    | err e ↦ err e
    | stuck ↦ stuck
  ]
