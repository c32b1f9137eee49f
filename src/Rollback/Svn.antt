-- ===== src/Rollback/Svn.antt =====
-- When a version is accepted.
use toob_loader.Common.{
  ℕ, ◌≤◌, ◌≡◌, refl, ap, sym, ◌∙◌, ◌⊎◌, inl, inr, ◌↔◌, Bool, true, false, ◌&&◌,
}
use toob_loader.Common.{leb, leb→le, le→leb, if◌then◌else◌, Bool-cases}
use toob_loader.Status.{Status, ok_status, downgrade, not_supported, is_ok, Result, ok, err, stuck}
use toob_loader.Journal.{Journal}
use toob_loader.Journal.UpdateTmr.{read_counter_safe}
use toob_loader.Mailbox.Marked.{get_tmr-ready}
use toob_loader.Rollback.{RollbackTarget, persisted_svn, check_floors, verify_svn, is_not_supported}

-- The counter allows a version: it reads as a number that is not greater, or the device has none.
abbrev pub CounterAllows : ℕ → Result ℕ → Type 0
CounterAllows svn counter =
    ((epoch : ℕ) × (counter ≡ ok epoch) × (epoch ≤ svn)) ⊎ (counter ≡ err not_supported)

not_supported-cases : (e : Status) → is_not_supported e ≡ true → e ≡ not_supported
not_supported-cases not_supported h = refl
not_supported-cases _ h = cc h

both :
    (a b : Bool) → (if a && b then ok_status else downgrade) ≡ ok_status → (a ≡ true) × (b ≡ true)
both true true h = (refl, refl)
both true false h = absurd (cc h)
both false b h = absurd (cc h)

one :
    (a : Bool) (bad : Status)
    → is_ok bad ≡ false
    → (if a then ok_status else bad) ≡ ok_status
    → a ≡ true
one true bad b h = refl
one false bad b h = absurd (cc (b, h))

accepted :
    (svn persisted : ℕ) (counter : Result ℕ)
    → check_floors svn persisted counter ≡ ok_status
    → (persisted ≤ svn) × CounterAllows svn counter
unfolding check_floors
accepted svn persisted (ok epoch) h =
    let (a, b) = both (leb persisted svn) (leb epoch svn) h in
    (leb→le persisted svn a, inl (epoch, refl, leb→le epoch svn b))
accepted svn persisted (err e) h = elim (Bool-cases (is_not_supported e)) [
  | inl n ↦ (
    leb→le persisted svn (one (leb persisted svn) downgrade refl (rw n at h)),
    inr (ap err (not_supported-cases e n)),
  )
  | inr n ↦ absurd (cc (rw n at h))
]
accepted svn persisted stuck h = absurd (cc h)

accepts :
    (svn persisted : ℕ) (counter : Result ℕ)
    → persisted ≤ svn
    → CounterAllows svn counter
    → check_floors svn persisted counter ≡ ok_status
unfolding check_floors
accepts svn persisted counter h (inl (epoch, e, k)) =
    rw (e, le→leb persisted svn h, le→leb epoch svn k) refl
accepts svn persisted counter h (inr e) = rw (e, le→leb persisted svn h) refl

verify_svn-floors :
    (j : Journal) (first second : Result ℕ) (svn : ℕ) (target : RollbackTarget)
    → j.initialized ≡ true
    → verify_svn j first second svn target
      ≡ check_floors svn (persisted_svn target j.tmr) (read_counter_safe first second)
unfolding verify_svn
verify_svn-floors j first second svn target ready = rw (verify_svn, get_tmr-ready j ready) refl

-- Once the journal runs, a version is accepted exactly when it is not below the floor that the TMR payload
-- holds for its target, and either both reads of the eFuse counter bring one number that is not
-- greater than the version, or the device has no such counter.
pub verify_svn-accepts :
    (j : Journal) (first second : Result ℕ) (svn : ℕ) (target : RollbackTarget)
    → j.initialized ≡ true
    → (verify_svn j first second svn target ≡ ok_status)
      ↔ ((persisted_svn target j.tmr ≤ svn) × CounterAllows svn (read_counter_safe first second))
verify_svn-accepts j first second svn target ready =
    let floors = verify_svn-floors j first second svn target ready in
    let counter = read_counter_safe first second in
    (
      λ h. accepted svn (persisted_svn target j.tmr) counter (sym floors ∙ h),
      λ h. floors ∙ accepts svn (persisted_svn target j.tmr) counter h.0 h.1,
    )
