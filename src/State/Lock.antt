-- ===== src/State/Lock.antt =====
-- A locked device.
use toob_loader.Common.{ℕ, ◌≡◌, ◌≢◌, refl, inl, inr, ◌⊎◌, List, [], ◌∷◌, All, if◌then◌else◌}
use toob_loader.Status.{ok_status, is_ok, device_locked, Result}
use toob_loader.Hal.{FlashHal, CryptoHal}
use toob_loader.Journal.{Sector}
use toob_loader.Journal.Intent
use toob_loader.Journal.Wire.{intent_of}
use toob_loader.State.{
  BootEvent, ev_none, ev_confirm_ok, ev_crash, ev_cloud_unlock, ev_cloud_lock, ev_cloud_update,
}
use toob_loader.State.{find_row, Machine, Transition, goes_on, panics}
use toob_loader.State.{act, evaluate_transition}

module _ {S : Type 0} (hal : FlashHal S) (sectors : List Sector) (crypto : CryptoHal)
    (arena_len : ℕ) (sector_size : ℕ → Result ℕ) (first second : Result ℕ)
    (staging_addr staging_size max_retries : ℕ) where
  -- Transitions one after the other, up to the first that does not return `BOOT_OK`.
  unfoldable pub run_events : Machine S → List BootEvent → Transition S
  run_events b [] = goes_on ok_status b
  run_events b (event ∷ events) =
      elim (evaluate_transition hal sectors crypto arena_len sector_size first second staging_addr
        staging_size max_retries b event) [
          | panics e ↦ panics e
          | goes_on code b' ↦ if is_ok code then run_events b' events else goes_on code b'
        ]

  -- The device stays as it is, or it panics as a locked one.
  abbrev pub StaysLocked : Machine S → Transition S → Type 0
  StaysLocked b o = (o ≡ goes_on ok_status b) ⊎ (o ≡ panics device_locked)

  transition_locked :
      (b : Machine S) (event : BootEvent)
      → event ≢ ev_cloud_unlock
      → intent_of b.txn ≡ Intent.device_locked
      → StaysLocked b (
          evaluate_transition hal sectors crypto arena_len sector_size first second staging_addr
            staging_size max_retries b event)
  unfolding evaluate_transition find_row act
  transition_locked b ev_none keep locked = inl (rw (evaluate_transition, locked) refl)
  transition_locked b ev_confirm_ok keep locked = inr (rw (evaluate_transition, locked) refl)
  transition_locked b ev_crash keep locked = inl (rw (evaluate_transition, locked) refl)
  transition_locked b ev_cloud_unlock keep locked = absurd (keep refl)
  transition_locked b ev_cloud_lock keep locked = inl (rw (evaluate_transition, locked) refl)
  transition_locked b ev_cloud_update keep locked = inl (rw (evaluate_transition, locked) refl)

  -- Whatever events the transition table is driven with, without an unlock command a locked device stays as
  -- it is, its journal and its flash included, or it ends in the panic of a locked device.
  pub run_events-locked :
      (b : Machine S) (events : List BootEvent)
      → All (λ e. e ≢ ev_cloud_unlock) events
      → intent_of b.txn ≡ Intent.device_locked
      → StaysLocked b (run_events b events)
  unfolding run_events
  run_events-locked b [] keep locked = inl refl
  run_events-locked b (event ∷ events) (keep, later) locked =
      elim (transition_locked b event keep locked) [
        | inl e ↦ rw (run_events, e) (run_events-locked b events later locked)
        | inr e ↦ inr (rw (run_events, e) refl)
      ]
