-- ===== src/Mailbox/Once.antt =====
-- A request is taken over once: the calls of `boot_mailbox_consume` after the first.
use toob_loader.Common.{
  ℕ, zero, suc, ◌+◌, ◌≡◌, ◌<◌, ◌≤◌, ◌^◌, refl, ap, sym, ◌∙◌, Bool, true, false, arith,
}
use toob_loader.Common.{le→ltb_false, List, length, some, if◌then◌else◌, ◌%◌, ◌++◌, ◌∷◌, []}
use toob_loader.Common.{not}
use toob_loader.Status.{Status, ok_status, state, counter_exhausted, is_ok, Result}
use toob_loader.Hal.{FlashHal, CryptoHal}
use toob_loader.Journal.{Journal, Sector, best_sector, rotate_to_sector}
use toob_loader.Journal.UpdateTmr.{update_tmr, quorum_loop, anchor, epoch_of, read_counter_safe}
use toob_loader.Journal.Fields.{last_mbx_request_id_of, with_last_mbx_request_id}
use toob_loader.Mailbox.{seq_of, mbx_read_best, mbx_apply, consume}
use toob_loader.Mailbox.Marked.{
  LongDigests, consume-marked, get_tmr-ready, consume-new, apply_then_mark-ok,
}

-- The flag of the log in an outcome.
abbrev ready_of : {S : Type 0} → Status × Journal × S → Bool
ready_of r = r.1.initialized

ready_if :
    {S : Type 0} (b k : Bool) (x y : Status × Journal × S)
    → ready_of x ≡ k
    → ready_of y ≡ k
    → ready_of (if b then x else y) ≡ k
ready_if true k x y hx hy = hx
ready_if false k x y hx hy = hy

guarded :
    {S : Type 0} (b : Bool) (j : Journal) (s : S) (y : Status × Journal × S) (j' : Journal) (s' : S)
    → (if not b then (state, j, s) else y) ≡ (ok_status, j', s')
    → b ≡ true
guarded true j s y j' s' e = refl
guarded {S} false j s y j' s' e =
    let failed : state ≡ ok_status = ap (λ (p : Status × Journal × S). p.0) e in absurd (cc failed)

module _ {S : Type 0} (hal : FlashHal S) (sectors : List Sector) (crypto : CryptoHal)
    (base slot_size : ℕ) where
  quorum_loop-ready :
      (steps : ℕ) (j : Journal) (s : S) (seq : ℕ) (exclude tmr : List ℕ) (count : ℕ)
      → ready_of (quorum_loop hal sectors crypto.hash steps j s seq exclude tmr count)
        ≡ j.initialized
  unfolding quorum_loop
  quorum_loop-ready zero j s seq exclude tmr count = refl
  quorum_loop-ready (suc steps) j s seq exclude tmr count =
      let idx = best_sector hal sectors s seq exclude in
      let r = rotate_to_sector hal sectors s idx ((seq + 1) % 2 ^ 32) tmr in
      ready_if (is_ok r.0) j.initialized _ (r.0, j, r.2)
        (quorum_loop-ready steps (record j { active_index = idx }) r.2 ((seq + 1) % 2 ^ 32)
          (exclude ++ (idx ∷ [])) tmr r.1)
        refl

  update_tmr-ready :
      (first second : Result ℕ) (j : Journal) (s : S) (new : List ℕ) (j' : Journal) (s' : S)
      → update_tmr hal sectors crypto.hash first second j s new ≡ (ok_status, j', s')
      → j'.initialized ≡ true
  unfolding update_tmr
  update_tmr-ready first second j s new j' s' e =
      let kept =
        ready_if (not j.initialized) j.initialized (state, j, s) _ refl
          (ready_if _ j.initialized (ok_status, j, s) _ refl
            (ready_if _ j.initialized (counter_exhausted, j, s) _ refl
              (quorum_loop-ready 3 j s j.sequence_id (j.active_index ∷ [])
                (anchor hal sectors crypto.hash j.key (epoch_of (read_counter_safe first second))
                  new)
                j.erase_count))) in
      ap ready_of (sym e) ∙ kept ∙ guarded j.initialized j s _ j' s' e

  -- A request that is not newer than the watermark changes nothing.
  consume-old :
      (first second : Result ℕ) (j : Journal) (s : S) (rec : List ℕ)
      → j.initialized ≡ true
      → mbx_read_best hal sectors crypto base slot_size s ≡ some rec
      → seq_of rec ≤ last_mbx_request_id_of j.tmr
      → consume hal sectors crypto base slot_size first second j s ≡ (ok_status, j, s)
  unfolding consume
  consume-old first second j s rec ready box old =
      rw
        (
          consume,
          box,
          get_tmr-ready j ready,
          le→ltb_false (last_mbx_request_id_of j.tmr) (seq_of rec) old,
        )
        refl

  -- Once a request was taken over with `BOOT_OK`, each further call on the same mailbox returns `BOOT_OK`
  -- and changes neither the journal nor the hardware.
  pub consume-once :
      (first second third fourth : Result ℕ) (j : Journal) (s : S) (rec : List ℕ) (j' : Journal)
      (s' : S)
      → LongDigests crypto
      → 76 ≤ length j.tmr
      → j.initialized ≡ true
      → mbx_read_best hal sectors crypto base slot_size s ≡ some rec
      → seq_of rec < 2 ^ 32
      → last_mbx_request_id_of j.tmr < seq_of rec
      → consume hal sectors crypto base slot_size first second j s ≡ (ok_status, j', s')
      → mbx_read_best hal sectors crypto base slot_size s' ≡ some rec
      → consume hal sectors crypto base slot_size third fourth j' s' ≡ (ok_status, j', s')
  consume-once first second third fourth j s rec j' s' digests long ready box small newer e box' =
      let r = mbx_apply hal sectors crypto base slot_size j s rec j.tmr in
      let updated =
        apply_then_mark-ok hal sectors crypto base slot_size first second j s rec j.tmr j' s' (
          sym (consume-new hal sectors crypto base slot_size first second j s rec ready box newer)
          ∙ e) in
      let marked =
        consume-marked hal sectors crypto base slot_size first second j s rec j' s' digests long
          ready box small newer e in
      consume-old third fourth j' s' rec
        (update_tmr-ready first second r.1 r.2 (with_last_mbx_request_id j.tmr (seq_of rec)) j' s'
          updated)
        box' (omega (arith, marked.0))
