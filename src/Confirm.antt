-- ===== src/Confirm.antt =====
-- toobloader/core/boot_confirm.c: the question to the confirmation driver, with the drivers taken to be
-- present. The reset reason is read and not used.
use toob_loader.Common.{ℕ, if◌then◌else◌}
use toob_loader.Status.{Status, ok_status, verify, is_ok}
use toob_loader.Hal.{ConfirmHal}

module _ {S : Type 0} (confirm : ConfirmHal S) where
  -- `boot_confirm_evaluate`
  unfoldable pub evaluate : S → ℕ → Status × S
  evaluate s expected_nonce =
      let (confirmed, s') = confirm.check_ok s expected_nonce in
      let (code, s'') = confirm.clear s' in
      if confirmed then (ok_status, s') else (if is_ok code then verify else code, s'')

  -- `boot_confirm_clear`
  unfoldable pub clear_confirm : S → Status × S
  clear_confirm s = confirm.clear s
