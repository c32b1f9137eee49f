-- ===== src/State.antt =====
-- toobloader/core/boot_state.c: the table of intents, its transitions, the test that authorises a
-- confirmation, and the table of errors that reject an update.
mod Tests
pub mod Lock
pub mod Confirm
pub mod Update
use toob_loader.Common.{
  ℕ, ◌+◌, ◌*◌, ◌%◌, ◌^◌, not, Bool, true, false, ◌&&◌, ◌||◌, ltb, ◌==◌, if◌then◌else◌,
}
use toob_loader.Common.{List, [], ◌∷◌, Option, none, some}
use toob_loader.Status.{Status, ok_status, device_locked, is_ok, Result}
use toob_loader.Hal.{FlashHal, CryptoHal}
use toob_loader.Tbm1.Layout.{u32_at}
use toob_loader.Journal.{Journal, Sector}
use toob_loader.Journal.Intent
use toob_loader.Journal.Wire.{intent_of, u32_bytes}
use toob_loader.Journal.Append.{append}
use toob_loader.Journal.UpdateTmr.{update_tmr}
use toob_loader.Journal.Migrate.{patch}
use toob_loader.Journal.Fields.{boot_failure_counter_of, recovery_failure_counter_of}
use toob_loader.Effect.{erase_safe}

-- `boot_event_t`
pub data BootEvent : Type 0 where
  ev_none ev_confirm_ok ev_crash ev_cloud_unlock ev_cloud_lock ev_cloud_update : BootEvent

-- `intent_action_t`
pub data IntentAction : Type 0 where
  act_none act_heal_counter act_append act_panic_locked act_crash_accum : IntentAction

-- `intent_row_t`
pub record IntentRow : Type 0 where
  pub cur : ℕ
  pub ev : BootEvent
  pub next : ℕ
  pub action : IntentAction

abbrev row : ℕ → BootEvent → ℕ → IntentAction → IntentRow
row cur ev next action = record { cur = cur; ev = ev; next = next; action = action }

-- `INTENT_TABLE`
abbrev pub intent_table : List IntentRow
intent_table =
    row Intent.device_locked ev_confirm_ok Intent.device_locked act_panic_locked
    ∷ (row Intent.device_locked ev_cloud_unlock Intent.none_intent act_append
        ∷ (row Intent.confirm_commit ev_confirm_ok Intent.none_intent act_heal_counter
            ∷ (row Intent.confirm_commit ev_crash Intent.confirm_commit act_crash_accum
                ∷ (row Intent.recovery_resolved ev_confirm_ok Intent.none_intent act_heal_counter
                    ∷ (row Intent.recovery_resolved ev_crash Intent.recovery_resolved
                          act_crash_accum
                        ∷ (row Intent.none_intent ev_cloud_lock Intent.device_locked act_append
                            ∷ (row Intent.none_intent ev_cloud_update Intent.update_pending
                                  act_append
                                ∷ (row Intent.none_intent ev_crash Intent.none_intent
                                      act_crash_accum
                                    ∷ (row Intent.txn_commit ev_crash Intent.txn_commit
                                          act_crash_accum
                                        ∷ (row Intent.txn_rollback_pending ev_crash
                                              Intent.txn_rollback_pending act_crash_accum
                                            ∷ []))))))))))

-- The numbers of the events, by which the code compares them.
abbrev pub event_code : BootEvent → ℕ
event_code ev_none = 0
event_code ev_confirm_ok = 1
event_code ev_crash = 2
event_code ev_cloud_unlock = 3
event_code ev_cloud_lock = 4
event_code ev_cloud_update = 5

-- The first row that fits.
unfoldable pub find_row : List IntentRow → ℕ → BootEvent → Option IntentRow
find_row [] intent event = none
find_row (r ∷ rs) intent event =
    let later = find_row rs intent event in
    if r.cur == intent && event_code r.ev == event_code event then some r else later

-- `open_txn` with another intent, and `current_tmr` with other counters
abbrev pub with_intent : List ℕ → ℕ → List ℕ
with_intent txn intent = patch txn 4 (u32_bytes intent)

abbrev pub with_boot_failures : List ℕ → ℕ → List ℕ
with_boot_failures tmr n = patch tmr 16 (u32_bytes n)

abbrev pub with_recovery_failures : List ℕ → ℕ → List ℕ
with_recovery_failures tmr n = patch tmr 80 (u32_bytes n)

-- What a run of the state machine works on: `open_txn`, `current_tmr`, the journal and the hardware.
pub record Machine (S : Type 0) : Type 0 where
  pub txn : List ℕ
  pub cur_tmr : List ℕ
  pub journal : Journal
  pub hardware : S

-- A transition returns, or it ends in `boot_panic`.
pub data Transition (S : Type 0) : Type 0 where
  goes_on : Status → Machine S → Transition S
  panics : Status → Transition S

-- `auth_ok` of the confirmation check, with `rtc_confirmed` and `combined_nonce`
unfoldable pub is_authorized : Bool → List ℕ → ℕ → Bool
is_authorized rtc_confirmed txn nonce =
    rtc_confirmed
    || (intent_of txn == Intent.confirm_commit
        && u32_at txn 8 + 4294967296 * u32_at txn 12 == nonce)
    || intent_of txn == Intent.recovery_resolved

-- The constants of generated_boot_config.h that the transitions use.
module _ {S : Type 0} (hal : FlashHal S) (sectors : List Sector) (crypto : CryptoHal)
    (arena_len : ℕ) (sector_size : ℕ → Result ℕ) (first second : Result ℕ)
    (staging_addr staging_size max_retries : ℕ) where
  -- The reset of both counters, if one is not 0.
  unfoldable pub reset_counters : Machine S → Status × Machine S
  reset_counters b =
      let tmr = with_recovery_failures (with_boot_failures b.cur_tmr 0) 0 in
      let (code, j, s) = update_tmr hal sectors crypto.hash first second b.journal b.hardware tmr in
      if ltb 0 (boot_failure_counter_of b.cur_tmr) || ltb 0 (recovery_failure_counter_of b.cur_tmr)
      then (code, record b { cur_tmr = tmr; journal = j; hardware = s })
      else (ok_status, b)

  -- `ACT_HEAL_COUNTER`
  unfoldable pub heal_counter : Machine S → ℕ → Status × Machine S
  heal_counter b next =
      let (code, b1) = reset_counters b in
      let txn = with_intent b1.txn next in
      let (append_code, j, s) = append hal sectors crypto.hash b1.journal b1.hardware txn in
      let (_, s2) = erase_safe hal arena_len sector_size s staging_addr staging_size in
      let b2 = record b1 { txn = txn; journal = j; hardware = s } in
      if not (is_ok code)
      then (code, b1)
      else if is_ok append_code
      then (ok_status, record b2 { hardware = s2 })
      else (append_code, b2)

  -- `ACT_APPEND`
  unfoldable pub append_next : Machine S → ℕ → Status × Machine S
  append_next b next =
      let txn = with_intent b.txn next in
      let (code, j, s) = append hal sectors crypto.hash b.journal b.hardware txn in
      let b1 = record b { journal = j; hardware = s } in
      (code, if is_ok code then record b1 { txn = txn } else b1)

  -- `ACT_CRASH_ACCUM`
  unfoldable pub count_crash : Machine S → Status × Machine S
  count_crash b =
      let boots = boot_failure_counter_of b.cur_tmr in
      let tmr =
        if ltb max_retries boots
        then with_recovery_failures b.cur_tmr ((recovery_failure_counter_of b.cur_tmr + 1) % 2 ^ 32)
        else with_boot_failures b.cur_tmr ((boots + 1) % 2 ^ 32) in
      let (code, j, s) = update_tmr hal sectors crypto.hash first second b.journal b.hardware tmr in
      (code, record b { cur_tmr = tmr; journal = j; hardware = s })

  abbrev returns : Status × Machine S → Transition S
  returns (code, b) = goes_on code b

  -- The switch over the actions.
  unfoldable pub act : Machine S → IntentRow → Transition S
  act b r = elim r.action [
    | act_none ↦ goes_on ok_status b
    | act_heal_counter ↦ returns (heal_counter b r.next)
    | act_append ↦ returns (append_next b r.next)
    | act_panic_locked ↦ panics device_locked
    | act_crash_accum ↦ returns (count_crash b)
  ]

  -- `evaluate_transition`
  unfoldable pub evaluate_transition : Machine S → BootEvent → Transition S
  evaluate_transition b event = elim (find_row intent_table (intent_of b.txn) event) [
    | none ↦ goes_on ok_status b
    | some r ↦ act b r
  ]
