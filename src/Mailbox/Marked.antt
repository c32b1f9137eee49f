-- ===== src/Mailbox/Marked.antt =====
-- What a request that was taken over leaves in the TMR payload.
use toob_loader.Common.{ℕ, ◌≡◌, ◌<◌, ◌≤◌, ◌^◌, refl, ap, sym, ◌∙◌, true, inl, inr, arith}
use toob_loader.Common.{
  lt→ltb, List, length, if◌then◌else◌, take, drop, some, length-take, length-append, ◌++◌,
}
use toob_loader.Status.{ok_status, Result, ok, err, state}
use toob_loader.Hal.{FlashHal, CryptoHal}
use toob_loader.Tbm1.Layout.{u32_at}
use toob_loader.Journal.{Journal, Sector}
use toob_loader.Journal.Wire.{u32_bytes}
use toob_loader.Journal.Append.{chain_count_of}
use toob_loader.Journal.UpdateTmr.{update_tmr, epoch_of, read_counter_safe}
use toob_loader.Journal.Outcome.{on_success}
use toob_loader.Journal.Updated.{update_tmr-IsUpdated}
use toob_loader.Journal.Fields.{last_mbx_request_id_of, with_last_mbx_request_id}
use toob_loader.Journal.Patched.{u32_at-anchor, u32_at-patch, u32_at-patch_below}
use toob_loader.Journal.Init.{get_tmr}
use toob_loader.Mailbox.{seq_of, mbx_read_best, mbx_apply, apply_then_mark, consume}

-- The digests of the crypto driver have 16 bytes at least.
pub record LongDigests (crypto : CryptoHal) : Type 0 where
  pub long_digest :
      (parts : List (List ℕ)) (digest : List ℕ) → crypto.hash parts ≡ ok digest → 16 ≤ length digest

length-with_last_mbx_request_id :
    (tmr : List ℕ) (seq : ℕ) → 76 ≤ length tmr → 56 ≤ length (with_last_mbx_request_id tmr seq)
length-with_last_mbx_request_id tmr seq h =
    omega (arith, length-append (take 76 tmr) (u32_bytes seq ++ drop 80 tmr), length-take 76 tmr)

pub get_tmr-ready : (j : Journal) → j.initialized ≡ true → get_tmr j ≡ ok j.tmr
unfolding get_tmr
get_tmr-ready j ready = ap (λ b. if b then ok j.tmr else err state) ready

module _ {S : Type 0} (hal : FlashHal S) (sectors : List Sector) (crypto : CryptoHal)
    (base slot_size : ℕ) where
  -- What is stored behind the chain tag is in memory after a successful update.
  updated_field :
      (first second : Result ℕ) (j : Journal) (s : S) (new : List ℕ) (j' : Journal) (s' : S) (n : ℕ)
      → LongDigests crypto
      → 56 ≤ length new
      → 72 ≤ n
      → update_tmr hal sectors crypto.hash first second j s new ≡ (ok_status, j', s')
      → u32_at j'.tmr n ≡ u32_at new n
  updated_field first second j s new j' s' n digests long behind e =
      elim (update_tmr-IsUpdated hal sectors crypto.hash first second j s new j' s' e) [
        | inl (same, ej, es) ↦
            ap (λ (x : Journal). u32_at x.tmr n) (sym ej) ∙ ap (λ t. u32_at t n) same
        | inr u ↦
            ap (λ t. u32_at t n) u.payload
            ∙ u32_at-anchor hal sectors crypto.hash j.key
                (epoch_of (read_counter_safe first second)) new n long behind digests.long_digest
      ]

  pub consume-new :
      (first second : Result ℕ) (j : Journal) (s : S) (rec : List ℕ)
      → j.initialized ≡ true
      → mbx_read_best hal sectors crypto base slot_size s ≡ some rec
      → last_mbx_request_id_of j.tmr < seq_of rec
      → consume hal sectors crypto base slot_size first second j s
        ≡ apply_then_mark hal sectors crypto base slot_size first second j s rec j.tmr
  unfolding consume
  consume-new first second j s rec ready box newer =
      rw
        (
          consume,
          box,
          get_tmr-ready j ready,
          lt→ltb (last_mbx_request_id_of j.tmr) (seq_of rec) newer,
        )
        refl

  pub apply_then_mark-ok :
      (first second : Result ℕ) (j : Journal) (s : S) (rec tmr : List ℕ) (j' : Journal) (s' : S)
      → apply_then_mark hal sectors crypto base slot_size first second j s rec tmr
        ≡ (ok_status, j', s')
      → let r = mbx_apply hal sectors crypto base slot_size j s rec tmr in
        update_tmr hal sectors crypto.hash first second r.1 r.2
          (with_last_mbx_request_id tmr (seq_of rec))
        ≡ (ok_status, j', s')
  unfolding apply_then_mark
  apply_then_mark-ok first second j s rec tmr j' s' e =
      let r = mbx_apply hal sectors crypto base slot_size j s rec tmr in
      on_success r.0 r.1 r.2 _ j' s' e

  -- Whenever a new request is taken over with `BOOT_OK`, the watermark is the request's sequence
  -- number, and the chain counts as many entries as before the call.
  pub consume-marked :
      (first second : Result ℕ) (j : Journal) (s : S) (rec : List ℕ) (j' : Journal) (s' : S)
      → LongDigests crypto
      → 76 ≤ length j.tmr
      → j.initialized ≡ true
      → mbx_read_best hal sectors crypto base slot_size s ≡ some rec
      → seq_of rec < 2 ^ 32
      → last_mbx_request_id_of j.tmr < seq_of rec
      → consume hal sectors crypto base slot_size first second j s ≡ (ok_status, j', s')
      → (last_mbx_request_id_of j'.tmr ≡ seq_of rec)
        × (chain_count_of j'.tmr ≡ chain_count_of j.tmr)
  consume-marked first second j s rec j' s' digests long ready box small newer e =
      let r = mbx_apply hal sectors crypto base slot_size j s rec j.tmr in
      let new = with_last_mbx_request_id j.tmr (seq_of rec) in
      let updated =
        apply_then_mark-ok first second j s rec j.tmr j' s'
          (sym (consume-new first second j s rec ready box newer) ∙ e) in
      let enough = length-with_last_mbx_request_id j.tmr (seq_of rec) long in
      (
        updated_field first second r.1 r.2 new j' s' 76 digests enough (omega arith) updated
            ∙ u32_at-patch j.tmr 76 (seq_of rec) long small,
        updated_field first second r.1 r.2 new j' s' 72 digests enough (omega arith) updated
            ∙ u32_at-patch_below j.tmr 76 (u32_bytes (seq_of rec)) 72 long (omega arith),
      )
