-- ===== src/State/Tests.antt =====
-- Instances of the theorems on the state machine.
use toob_loader.Common.{◌++◌, ℕ, ◌≡◌, ◌≢◌, refl, arith, false, List, [], ◌∷◌, replicate, All}
use toob_loader.Status.{Result, ok}
use toob_loader.Journal.Intent
use toob_loader.Journal.Append.{append}
use toob_loader.Journal.Samples.{memory, two, journal_at, no_crypto, blank_log}
use toob_loader.Journal.Wire.{seal}
use toob_loader.Journal.Fields.{entry_of, active_nonce_of}
use toob_loader.Mailbox.{mbx_apply}
use toob_loader.State.{Machine, BootEvent, ev_crash, ev_confirm_ok, ev_cloud_unlock, is_authorized}
use toob_loader.State.Lock.{StaysLocked, run_events, run_events-locked}
use toob_loader.State.Confirm.{mbx_apply-unauthorized}

abbrev sector_size : ℕ → Result ℕ
sector_size a = ok 256

abbrev locked : Machine (List ℕ)
locked = record {
  txn = entry_of Intent.device_locked 0 0;
  cur_tmr = replicate 112 0;
  journal = journal_at 128;
  hardware = blank_log;
}

abbrev events : List BootEvent
events = ev_crash ∷ (ev_confirm_ok ∷ [])

no_unlock : All (λ e. e ≢ ev_cloud_unlock) events
no_unlock = (λ h. cc h, (λ h. cc h, tt))

run_events-locked_example :
    StaysLocked memory two no_crypto 512 sector_size
      (ok 0)
      (ok 0)
      0
      256
      3
      locked
      (run_events memory two no_crypto 512 sector_size (ok 0) (ok 0) 0 256 3 locked events)
run_events-locked_example =
    run_events-locked memory two no_crypto 512 sector_size (ok 0) (ok 0) 0 256 3 locked events
      no_unlock refl

-- A confirmation of the nonce 5, and a payload with that nonce.
abbrev confirmation : List ℕ
confirmation = replicate 6 0 ++ (2 ∷ (0 ∷ (replicate 8 0 ++ (5 ∷ replicate 15 0))))

abbrev on_trial : List ℕ
on_trial = replicate 36 0 ++ (5 ∷ replicate 75 0)

mbx_apply-unauthorized_example :
    (entry : List ℕ) × (mbx_apply memory two no_crypto 512 32
        (journal_at 128)
        blank_log
        confirmation
        on_trial
      ≡ append memory two no_crypto.hash (journal_at 128) blank_log entry)
    × (is_authorized false (seal entry) (active_nonce_of on_trial) ≡ false)
mbx_apply-unauthorized_example =
    mbx_apply-unauthorized memory two no_crypto 512 32 (journal_at 128) blank_log confirmation
      on_trial refl refl (omega arith)
