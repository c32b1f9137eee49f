-- ===== src/Journal/Wire.antt =====
-- common/include/toob_wal_wire.h and toobloader/core/include/boot_journal.h: the bytes of a journal
-- entry and of a sector header, on a little-endian machine.
use toob_loader.Common.{ℕ, ◌/◌, ◌%◌, Bool, true, false, ◌&&◌, ◌||◌, ◌==◌, if◌then◌else◌}
use toob_loader.Common.{◌≡◌, refl, ◌⊎◌, inl, inr}
use toob_loader.Common.{List, [], ◌∷◌, ◌++◌, take, drop}
use toob_loader.Crc32
use toob_loader.Journal.Intent
use toob_loader.Tbm1.Layout.{u32_at}

abbrev pub u32_bytes : ℕ → List ℕ
u32_bytes x = x % 256 ∷ (x / 256 % 256 ∷ (x / 65536 % 256 ∷ (x / 16777216 % 256 ∷ [])))

abbrev pub u16_bytes : ℕ → List ℕ
u16_bytes x = x % 256 ∷ (x / 256 % 256 ∷ [])

-- `TOOB_WAL_ENTRY_MAGIC`, `TOOB_WAL_SECTOR_MAGIC_LEGACY` and `TOOB_WAL_SECTOR_MAGIC_CURRENT`
abbrev pub entry_magic : ℕ
entry_magic = 0xB007BEEF

abbrev pub magic_legacy : ℕ
magic_legacy = 0x57414C02

abbrev pub magic_current : ℕ
magic_current = 0x57414C03

-- The sizes of the aligned unions.
abbrev pub header_size : ℕ
header_size = 128

abbrev pub entry_size : ℕ
entry_size = 64

-- `wal_intent_is_security_bearing`
unfoldable pub is_security_bearing : ℕ → Bool
is_security_bearing intent =
    intent == Intent.device_locked || intent == Intent.confirm_commit || intent == Intent.txn_commit

-- The fields of `toob_wal_entry_payload_t` that the core reads.
abbrev pub magic_of : List ℕ → ℕ
magic_of bs = u32_at bs 0

abbrev pub intent_of : List ℕ → ℕ
intent_of bs = u32_at bs 4

abbrev pub delta_chunk_id_of : List ℕ → ℕ
delta_chunk_id_of bs = u32_at bs 52

abbrev pub offset_of : List ℕ → ℕ
offset_of bs = u32_at bs 56

abbrev pub trailer_of : List ℕ → ℕ
trailer_of bs = u32_at bs 60

-- `entry_crc`: the payload without its trailer.
unfoldable pub entry_crc : List ℕ → ℕ
entry_crc bs = Crc32.compute (take 60 bs)

-- `entry.data.magic = …; entry.data.crc32_trailer = entry_crc(…)`
unfoldable pub seal : List ℕ → List ℕ
unfolding entry_crc
seal bs =
    let marked = u32_bytes entry_magic ++ take 56 (drop 4 bs) in
    marked ++ u32_bytes (entry_crc marked)

-- `is_fully_erased_constant_time`
unfoldable pub is_fully_erased : List ℕ → ℕ → Bool
is_fully_erased [] erased_val = true
is_fully_erased (b ∷ bs) erased_val = b == erased_val && is_fully_erased bs erased_val

pub data EntryState : Type 0 where
  erased valid corrupt : EntryState

pub EntryState-cases : (st : EntryState) → (st ≡ valid) ⊎ ((st ≡ erased) ⊎ (st ≡ corrupt))
EntryState-cases valid = inl refl
EntryState-cases erased = inr (inl refl)
EntryState-cases corrupt = inr (inr refl)

-- `classify_entry`
unfoldable pub classify_entry : List ℕ → ℕ → EntryState
unfolding is_fully_erased entry_crc
classify_entry bs erased_val =
    if is_fully_erased bs erased_val
    then erased
    else if magic_of bs == entry_magic && entry_crc bs == trailer_of bs
    then valid
    else corrupt

-- The fields of a sector header, which stand at the same places in both versions.
abbrev pub sector_magic_of : List ℕ → ℕ
sector_magic_of bs = u32_at bs 0

abbrev pub sequence_id_of : List ℕ → ℕ
sequence_id_of bs = u32_at bs 4

abbrev pub erase_count_of : List ℕ → ℕ
erase_count_of bs = u32_at bs 8

-- `tmr_data` of the current version, as its 112 bytes
abbrev pub tmr_of : List ℕ → List ℕ
tmr_of bs = take 112 (drop 12 bs)

-- `verify_header_crc_glitch_safe`
unfoldable pub verify_header_crc : List ℕ → Bool
verify_header_crc bs =
    if sector_magic_of bs == magic_legacy
    then Crc32.compute (take 60 bs) == u32_at bs 60
    else if sector_magic_of bs == magic_current
    then Crc32.compute (take 124 bs) == u32_at bs 124
    else false

-- The header that `rotate_to_sector` builds.
unfoldable pub header_bytes : ℕ → ℕ → List ℕ → List ℕ
header_bytes seq erase_count tmr =
    let fields = u32_bytes magic_current ++ (u32_bytes seq ++ (u32_bytes erase_count ++ tmr)) in
    fields ++ u32_bytes (Crc32.compute fields)
