-- ===== src/Stage0/Boot.antt =====
-- toobloader/stage0/stage0_main.c with stage0_hash.c, stage0_otp.c and stage0_verify.c: which bank is
-- started. The bring-up and the close-down of the drivers, the random delays and the seal of the
-- proof, which holds without a fault, are left out.
use toob_loader.Common.{ℕ, zero, suc, ◌+◌, ◌-◌, ◌%◌, ◌^◌, Bool, false, not, ◌&&◌, ◌||◌}
use toob_loader.Common.{ltb, ◌==◌, if◌then◌else◌, List, [], ◌∷◌, ◌++◌, length, replicate}
use toob_loader.Common.{Option, none, some}
use toob_loader.Status.{Status, is_ok, Result, ok, err, stuck}
use toob_loader.Hal.{FlashHal, CryptoHal}
use toob_loader.Tbm1.Layout.{u32_at}
use toob_loader.Journal.{Sector}
use toob_loader.Journal.UpdateTmr.{read_counter_safe, epoch_of}
use toob_loader.Delta.Flush.{window}
use toob_loader.Stage0.{ResetReason, get_active_slot, get_stage1_svn, evaluate_tentative}

-- `toob_image_header_t`, the fields that stage 0 uses.
pub record ImageHeader : Type 0 where
  pub header_magic : ℕ
  pub image_size : ℕ
  pub entry_point : ℕ

abbrev pub image_header_of : List ℕ → ImageHeader
image_header_of bs = record {
  header_magic = u32_at bs 0;
  image_size = u32_at bs 4;
  entry_point = u32_at bs 8;
}

abbrev pub image_header_size : ℕ
image_header_size = 20

-- `TOOB_MAGIC_HEADER`
abbrev pub image_magic : ℕ
image_magic = 1414483778

-- `boot_proof_t` without its seal.
pub record Proof : Type 0 where
  pub image_addr : ℕ
  pub proof_size : ℕ
  pub proof_entry : ℕ
  pub proof_svn : ℕ

-- What `stage0_try_boot_bank` makes of a bank: its two results, and the halt of a device whose
-- counter cannot be read.
pub data Bank : Type 0 where
  eligible : Proof → Bank
  refused halted : Bank

-- Where stage 0 ends.
pub data Ending : Type 0 where
  jump : Proof → Ending
  rescue dead_halt : Ending

-- `stage0_get_active_otp_key_index`, given the two reads of the counter; `none` is its endless loop.
unfoldable pub key_index_of : Result ℕ × Result ℕ → Option ℕ
key_index_of (first, second) = elim (read_counter_safe first second) [
  | ok epoch ↦ some (if ltb 255 epoch then 255 else epoch)
  | err e ↦ none
  | stuck ↦ none
]

-- The first byte of the DSLC, 0xFF where it cannot be had.
unfoldable pub dslc_byte : Result (List ℕ) → ℕ
dslc_byte (ok (b ∷ _)) = b
dslc_byte _ = 255

-- `matches`
unfoldable pub count_same : ℕ → List ℕ → ℕ
count_same x [] = 0
count_same x (y ∷ ys) = if x == y then count_same x ys + 1 else count_same x ys

-- The first of the candidates that stands three times among all reads.
unfoldable pub find_three : List ℕ → List ℕ → Option ℕ
find_three [] bytes = none
find_three (x ∷ xs) bytes = if ltb 2 (count_same x bytes) then some x else find_three xs bytes

-- The rounds over the reads of the DSLC, of which there are five at most; `seen` are the bytes of the
-- rounds before. There is a vote from the third round on.
unfoldable pub vote_rounds : ℕ → List ℕ → List (Result (List ℕ)) → Option ℕ
vote_rounds zero seen reads = none
vote_rounds (suc rounds) seen [] = none
vote_rounds (suc rounds) seen (r ∷ later) =
    let bytes = seen ++ (dslc_byte r ∷ []) in
    let rest = vote_rounds rounds bytes later in
    elim (if ltb (length seen) 2 then none else find_three bytes bytes) [
      | none ↦ rest
      | some dslc ↦ some dslc
    ]

-- The vote on the DSLC.
unfoldable pub vote_dslc : List (Result (List ℕ)) → Option ℕ
unfolding vote_rounds
vote_dslc reads = vote_rounds 5 [] reads

-- What the hardware brings in one start: the reads of the DSLC, those of the counter in `main` and for
-- each of the banks that are tried, the reason of the reset and `toob_handoff_state.magic`.
pub record Readings : Type 0 where
  pub dslc_reads : List (Result (List ℕ))
  pub floor_reads : Result ℕ × Result ℕ
  pub preferred_reads : Result ℕ × Result ℕ
  pub fallback_reads : Result ℕ × Result ℕ
  pub reset_reason : ResetReason
  pub handoff_magic : ℕ

-- The geometry of the build: the two banks, CHIP_APP_SLOT_SIZE and TOOB_STATE_TENTATIVE. `dev_bypass`
-- is TOOB_ALLOW_DEV_BYPASS.
pub record Layout : Type 0 where
  pub stage1a : ℕ
  pub stage1b : ℕ
  pub app_slot_size : ℕ
  pub tentative : ℕ
  pub dev_bypass : Bool

-- `verify_signature_ph` of `crypto_hal_t`: the digest, the signature and the key.
abbrev pub DigestCheck : Type 0
DigestCheck = Option (List ℕ → List ℕ → List ℕ → Status)

-- `stage0_verify_signature`
unfoldable pub verify_digest : DigestCheck → List ℕ → List ℕ → List ℕ → Bool
verify_digest none sig key digest = false
verify_digest (some check) sig key digest = is_ok (check digest sig key)

module _ {S : Type 0} (hal : FlashHal S) (crypto : CryptoHal) (check : DigestCheck) where
  -- The pieces that `stage0_hash_compute` hashes; for one that cannot be read it hashes two bytes that
  -- poison the digest.
  unfoldable pub hash_pieces : ℕ → S → ℕ → ℕ → ℕ → List (List ℕ)
  hash_pieces zero s addr len off = []
  hash_pieces (suc fuel) s addr len off =
      let step = window len off 128 in
      let piece : List ℕ = elim (hal.read s ((addr + off) % 2 ^ 32) step) [
        | ok bs ↦ bs
        | err e ↦ 222 ∷ (173 ∷ [])
        | stuck ↦ 222 ∷ (173 ∷ [])
      ] in
      let later = hash_pieces fuel s addr len (off + step) in
      if ltb off len then piece ∷ later else []

  -- `stage0_hash_compute`, into a buffer of 64 zeroes. A piece has a byte at least.
  unfoldable pub hash_compute : S → ℕ → ℕ → List ℕ
  hash_compute s addr len = elim (crypto.hash (hash_pieces len s addr len 0)) [
    | ok digest ↦ digest ++ replicate (64 - length digest) 0
    | err e ↦ replicate 64 0
    | stuck ↦ replicate 64 0
  ]

  -- `stage0_try_boot_bank` from the hash on; `none` stands for the development bypass.
  unfoldable pub check_bank_image : S → ℕ → ℕ → ImageHeader → Option (List ℕ) → Bank
  check_bank_image s svn_floor bank hdr key =
      let len = (image_header_size + hdr.image_size) % 2 ^ 32 in
      let digest = hash_compute s bank len in
      let proof : Proof = record {
        image_addr = bank;
        proof_size = hdr.image_size;
        proof_entry = hdr.entry_point;
        proof_svn = svn_floor;
      } in
      elim (hal.read s ((bank + len) % 2 ^ 32) 64) [
        | ok sig ↦ elim key [
          | none ↦ eligible proof
          | some k ↦ if verify_digest check sig k digest then eligible proof else refused
        ]
        | err e ↦ refused
        | stuck ↦ refused
      ]

  -- The key, or the bypass of a device in development.
  unfoldable pub load_key : Layout → ℕ → ℕ → Option (Option (List ℕ))
  load_key layout dslc index = elim (crypto.read_pubkey index) [
    | ok key ↦ some (some key)
    | err e ↦ if layout.dev_bypass && dslc == 0 then some none else none
    | stuck ↦ none
  ]

  -- `stage0_try_boot_bank`
  unfoldable pub try_boot_bank : Layout → S → ℕ → ℕ → Result ℕ × Result ℕ → ℕ → Bank
  try_boot_bank layout s dslc svn_floor reads bank = elim (hal.read s bank image_header_size) [
    | ok bs ↦
        let hdr = image_header_of bs in
        let checked : Bank = elim (key_index_of reads) [
          | none ↦ halted
          | some index ↦ elim (load_key layout dslc index) [
            | none ↦ refused
            | some key ↦ check_bank_image s svn_floor bank hdr key
          ]
        ] in
        if not (hdr.header_magic == image_magic) || ltb layout.app_slot_size hdr.image_size
        then refused
        else checked
    | err e ↦ refused
    | stuck ↦ refused
  ]

  -- `main` from the banks on.
  unfoldable pub try_banks : Layout → S → Readings → ℕ → ℕ → ℕ → Ending
  try_banks layout s readings dslc svn_floor slot =
      let fallback = if slot == layout.stage1a then layout.stage1b else layout.stage1a in
      let second : Ending =
        elim (try_boot_bank layout s dslc svn_floor readings.fallback_reads fallback) [
          | eligible proof ↦ jump proof
          | refused ↦ rescue
          | halted ↦ dead_halt
        ] in
      elim (try_boot_bank layout s dslc svn_floor readings.preferred_reads slot) [
        | eligible proof ↦ jump proof
        | refused ↦ second
        | halted ↦ dead_halt
      ]

  -- The slot that `main` tries first.
  unfoldable pub preferred_slot : Layout → S → List Sector → Readings → ℕ
  preferred_slot layout s secs readings =
      (evaluate_tentative layout.stage1a layout.stage1b layout.tentative readings.reset_reason
        readings.handoff_magic (get_active_slot hal layout.stage1a layout.stage1b s secs)).0

  -- The higher of the two floors.
  unfoldable pub svn_floor_of : S → List Sector → Readings → ℕ
  svn_floor_of s secs readings =
      let (first, second) = readings.floor_reads in
      let epoch = epoch_of (read_counter_safe first second) in
      let wal_svn = get_stage1_svn hal s secs in if ltb epoch wal_svn then wal_svn else epoch

  -- `main`
  unfoldable pub stage0_main : Layout → S → List Sector → Readings → Ending
  stage0_main layout s secs readings = elim (vote_dslc readings.dslc_reads) [
    | none ↦ dead_halt
    | some dslc ↦
        try_banks layout s readings dslc (svn_floor_of s secs readings)
          (preferred_slot layout s secs readings)
  ]
