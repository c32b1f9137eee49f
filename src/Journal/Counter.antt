-- ===== src/Journal/Counter.antt =====
-- `boot_read_monotonic_counter_safe`: what its result says of the two reads.
use toob_loader.Common.{ℕ, ◌==◌, ◌≡◌, ap, Bool-cases, inl, inr, ==_iff, ◌∙◌, sym, arith}
use toob_loader.Status.{Result, ok, err, stuck}
use toob_loader.Journal.UpdateTmr.{read_counter_safe}

pub read_counter_safe-ok :
    (first second : Result ℕ) (c : ℕ)
    → read_counter_safe first second ≡ ok c
    → (first ≡ ok c) × (second ≡ ok c)
unfolding read_counter_safe
read_counter_safe-ok (ok a) (ok b) c h = elim (Bool-cases (a == b)) [
  | inl e ↦ let k : ok a ≡ ok c = rw e at h in (k, ap ok (sym ((==_iff a b).0 e)) ∙ k)
  | inr e ↦ absurd (cc (rw e at h))
]
read_counter_safe-ok (ok a) (err e) c h = cc h
read_counter_safe-ok (ok a) stuck c h = cc h
read_counter_safe-ok (err e) second c h = cc h
read_counter_safe-ok stuck second c h = cc h

pub read_counter_safe-agree : (c : ℕ) → read_counter_safe (ok c) (ok c) ≡ ok c
unfolding read_counter_safe
read_counter_safe-agree c = ground arith
