-- ===== src/Journal/Migrate.antt =====
-- `migrate_v1_tmr` and `upgrade_tmr_payload`: TMR payloads of older versions, as their bytes.
use toob_loader.Common.{ℕ, ◌+◌}
use toob_loader.Common.{ltb, if◌then◌else◌, List, ◌++◌, length, take, drop, replicate}
use toob_loader.Tbm1.Layout.{u16_at}
use toob_loader.Journal.Wire.{u16_bytes, u32_bytes}

-- `WAL_TMR_VERSION_CURRENT` and `WAL_TMR_POPULATED_SIZE`
abbrev pub tmr_version : ℕ
tmr_version = 7

abbrev pub populated_size : ℕ
populated_size = 92

-- `sizeof(wal_tmr_payload_v1_t)` and `sizeof(wal_tmr_payload_t)`
abbrev pub tmr_v1_size : ℕ
tmr_v1_size = 48

abbrev pub tmr_size : ℕ
tmr_size = 112

abbrev pub struct_version_of : List ℕ → ℕ
struct_version_of tmr = u16_at tmr 0

-- `tmr_data` of a sector header of the first version
abbrev pub tmr_v1_of : List ℕ → List ℕ
tmr_v1_of bs = take tmr_v1_size (drop 12 bs)

-- A payload of 112 bytes with other bytes from `o` on.
abbrev pub patch : List ℕ → ℕ → List ℕ → List ℕ
patch tmr o bs = take o tmr ++ (bs ++ drop (o + length bs) tmr)

-- The two fields in front: `struct_version` and `populated_size` of the current version.
abbrev pub version_fields : List ℕ
version_fields = u16_bytes tmr_version ++ u16_bytes populated_size

-- `migrate_v1_tmr`; `svn` is the constant `BOOT_STAGE1_SVN`. The twelve fields of the first version
-- stand in the same order in both.
unfoldable pub migrate_v1_tmr : ℕ → List ℕ → List ℕ
migrate_v1_tmr svn src = version_fields ++ (src ++ (u32_bytes svn ++ replicate 56 0))

-- `upgrade_tmr_payload`
unfoldable pub upgrade_tmr_payload : ℕ → List ℕ → List ℕ
upgrade_tmr_payload svn tmr =
    let version = struct_version_of tmr in
    let t2 = if ltb version 2 then patch tmr 52 (u32_bytes svn) else tmr in
    let t4 = if ltb version 4 then patch t2 76 (u32_bytes 0) else t2 in
    let t5 = if ltb version 5 then patch t4 80 (u32_bytes 0) else t4 in
    let t6 = if ltb version 6 then patch t5 84 (u16_bytes 0) else t5 in patch t6 0 version_fields
