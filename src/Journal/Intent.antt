-- ===== src/Journal/Intent.antt =====
-- common/include/toob_wal_wire.h: the values of `toob_wal_intent_t` that the core tests for.
use toob_loader.Common.{ℕ}

abbrev pub confirm_commit : ℕ
confirm_commit = 4

abbrev pub txn_commit : ℕ
txn_commit = 3

abbrev pub deprecated_nonce : ℕ
deprecated_nonce = 7

abbrev pub net_search_accum : ℕ
net_search_accum = 8

abbrev pub sleep_backoff : ℕ
sleep_backoff = 9

abbrev pub txn_rollback_pending : ℕ
txn_rollback_pending = 10

abbrev pub download_checkpoint : ℕ
download_checkpoint = 11

abbrev pub device_locked : ℕ
device_locked = 13

abbrev pub update_pending : ℕ
update_pending = 2

abbrev pub recovery_resolved : ℕ
recovery_resolved = 5

abbrev pub txn_rollback : ℕ
txn_rollback = 6

-- `TOOB_WAL_INTENT_NONE`
abbrev pub none_intent : ℕ
none_intent = 0
