-- ===== src/Journal/Outcome.antt =====
-- Outcomes of calls that return a status, the journal and the hardware.
use toob_loader.Common.{◌≡◌, ap, true, Bool-cases, inl, inr, if◌then◌else◌}
use toob_loader.Status.{Status, ok_status, is_ok}
use toob_loader.Journal.{Journal}

-- A call that is only made after a success, which is one itself then.
pub if_success :
    {S : Type 0} (code : Status) (j : Journal) (s : S) (next : Status × Journal × S) (j' : Journal)
    (s' : S)
    → (if is_ok code then next else (code, j, s)) ≡ (ok_status, j', s')
    → (is_ok code ≡ true) × (next ≡ (ok_status, j', s'))
if_success {S} code j s next j' s' e = elim (Bool-cases (is_ok code)) [
  | inl b ↦ (b, rw b at e)
  | inr b ↦
      let failed : code ≡ ok_status = ap (λ (p : Status × Journal × S). p.0) (rw b at e) in
      absurd (cc (failed, b))
]

pub on_success :
    {S : Type 0} (code : Status) (j : Journal) (s : S) (next : Status × Journal × S) (j' : Journal)
    (s' : S)
    → (if is_ok code then next else (code, j, s)) ≡ (ok_status, j', s')
    → next ≡ (ok_status, j', s')
on_success code j s next j' s' e = (if_success code j s next j' s' e).1
