-- ===== src/Journal/Fields.antt =====
-- toobloader/core/include/boot_journal.h: the fields of `wal_tmr_payload_t`, and an entry that is
-- built from its fields.
use toob_loader.Common.{ℕ, ◌+◌, ◌*◌, List, ◌++◌, replicate}
use toob_loader.Tbm1.Layout.{u32_at}
use toob_loader.Journal.Wire.{u32_bytes, entry_magic}
use toob_loader.Journal.Migrate.{patch}

abbrev pub active_stage1_bank_of : List ℕ → ℕ
active_stage1_bank_of tmr = u32_at tmr 8

abbrev pub app_svn_of : List ℕ → ℕ
app_svn_of tmr = u32_at tmr 12

abbrev pub boot_failure_counter_of : List ℕ → ℕ
boot_failure_counter_of tmr = u32_at tmr 16

abbrev pub svn_recovery_counter_of : List ℕ → ℕ
svn_recovery_counter_of tmr = u32_at tmr 20

abbrev pub app_slot_erases_of : List ℕ → ℕ
app_slot_erases_of tmr = u32_at tmr 24

abbrev pub staging_slot_erases_of : List ℕ → ℕ
staging_slot_erases_of tmr = u32_at tmr 28

abbrev pub swap_buffer_erases_of : List ℕ → ℕ
swap_buffer_erases_of tmr = u32_at tmr 32

-- `active_nonce_hi` and `active_nonce_lo`
abbrev pub active_nonce_of : List ℕ → ℕ
active_nonce_of tmr = u32_at tmr 36 + 4294967296 * u32_at tmr 40

abbrev pub stage1_svn_of : List ℕ → ℕ
stage1_svn_of tmr = u32_at tmr 52

abbrev pub last_mbx_request_id_of : List ℕ → ℕ
last_mbx_request_id_of tmr = u32_at tmr 76

abbrev pub recovery_failure_counter_of : List ℕ → ℕ
recovery_failure_counter_of tmr = u32_at tmr 80

abbrev pub with_last_mbx_request_id : List ℕ → ℕ → List ℕ
with_last_mbx_request_id tmr seq = patch tmr 76 (u32_bytes seq)

abbrev pub with_app_slot_erases : List ℕ → ℕ → List ℕ
with_app_slot_erases tmr n = patch tmr 24 (u32_bytes n)

-- `wal_entry_payload_t` with three of its fields; all else is 0.
abbrev pub entry_of : ℕ → ℕ → ℕ → List ℕ
entry_of intent delta_chunk_id offset =
    u32_bytes entry_magic
    ++ (u32_bytes intent
        ++ (replicate 44 0 ++ (u32_bytes delta_chunk_id ++ (u32_bytes offset ++ replicate 4 0))))
