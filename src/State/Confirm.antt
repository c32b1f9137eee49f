-- ===== src/State/Confirm.antt =====
-- A confirmation that comes in by the mailbox, and the test that is to authorise it.
use toob_loader.Common.{ℕ, ◌≡◌, ◌<◌, refl, arith, true, false, List, ◌==◌}
use toob_loader.Hal.{FlashHal, CryptoHal}
use toob_loader.Journal.{Journal, Sector}
use toob_loader.Journal.Intent
use toob_loader.Journal.Append.{append}
use toob_loader.Journal.Wire.{seal}
use toob_loader.Journal.Fields.{active_nonce_of, entry_of}
use toob_loader.Mailbox.{request_of, req_confirm, nonce_of, mbx_apply}
use toob_loader.State.{is_authorized}

not_zero : (n : ℕ) → 0 < n → (0 == n) ≡ false
not_zero n h = ground arith

-- Whatever is behind it, an entry of a confirmation without a nonce is not authorised.
unauthorized :
    (nonce : ℕ)
    → 0 < nonce
    → is_authorized false (seal (entry_of Intent.confirm_commit 0 0)) nonce ≡ false
unfolding is_authorized seal
unauthorized nonce h = rw (not_zero nonce h) refl

-- A confirmation whose nonce is that of the update on trial is appended by the mailbox as an entry that
-- does not hold the nonce, so that the confirmation check does not authorise it by the nonce, where
-- this is not 0.
pub mbx_apply-unauthorized :
    {S : Type 0} (hal : FlashHal S) (sectors : List Sector) (crypto : CryptoHal)
    (base slot_size : ℕ) (j : Journal) (s : S) (rec tmr : List ℕ)
    → request_of rec ≡ req_confirm
    → (nonce_of rec == active_nonce_of tmr) ≡ true
    → 0 < active_nonce_of tmr
    → (entry : List ℕ) × (mbx_apply hal sectors crypto base slot_size j s rec tmr
        ≡ append hal sectors crypto.hash j s entry)
      × (is_authorized false (seal entry) (active_nonce_of tmr) ≡ false)
unfolding mbx_apply
mbx_apply-unauthorized hal sectors crypto base slot_size j s rec tmr confirm match positive = (
  entry_of Intent.confirm_commit 0 0,
  rw (confirm, match) refl,
  unauthorized (active_nonce_of tmr) positive,
)
