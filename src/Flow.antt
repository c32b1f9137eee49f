-- ===== src/Flow.antt =====
-- Steps that change a state and return early: code that tests a status after each call.
use toob_loader.Common.{◌≡◌, subst, Bool, if◌then◌else◌}
use toob_loader.Status.{Status, is_ok, Result, ok, err, stuck}

-- A step on the state `V` with a result of type `A`.
abbrev pub Action : Type 0 → Type 0 → Type 0
Action V A = V → Result A × V

-- What follows a step that returned a value.
abbrev pub continue : {V A B : Type 0} → Result A × V → (A → Action V B) → Result B × V
continue (ok a, v) f = f a v
continue (err e, v) f = (err e, v)
continue (stuck, v) f = (stuck, v)

infixl 5 ◌>>=◌ ◌>>◌
abbrev pub ◌>>=◌ : {V A B : Type 0} → Action V A → (A → Action V B) → Action V B
◌>>=◌ m f v = continue (m v) f

abbrev pub ◌>>◌ : {V B : Type 0} → Action V (Unit {0}) → Action V B → Action V B
m >> k = m >>= λ _. k

abbrev pub done : {V : Type 0} → Action V (Unit {0})
done v = (ok tt, v)

abbrev pub give : {V A : Type 0} → Result A → Action V A
give r v = (r, v)

-- `if (!test) return e;`
abbrev pub require : {V : Type 0} → Bool → Status → Action V (Unit {0})
require test e v = if test then (ok tt, v) else (err e, v)

-- A status that is returned unless it is `BOOT_OK`.
abbrev pub of_status : Status → Result (Unit {0})
of_status e = if is_ok e then ok tt else err e

-- A result that satisfies `Q` with its state, or a state after a failure that satisfies `E`.
abbrev pub Ensures : {V A : Type 0} → (A → V → Type 0) → (V → Type 0) → Result A × V → Type 0
Ensures Q E (ok a, v) = Q a v
Ensures Q E (err e, v) = E v
Ensures Q E (stuck, v) = E v

pub continue-Ensures :
    {V A B : Type 0} (Q : A → V → Type 0) (E : V → Type 0) (Q' : B → V → Type 0) (r : Result A × V)
    (f : A → Action V B)
    → Ensures Q E r
    → ((a : A) (v : V) → Q a v → Ensures Q' E (f a v))
    → Ensures Q' E (continue r f)
continue-Ensures Q E Q' (ok a, v) f h k = k a v h
continue-Ensures Q E Q' (err e, v) f h k = h
continue-Ensures Q E Q' (stuck, v) f h k = h

-- A weaker claim.
pub Ensures-mono :
    {V A : Type 0} (Q Q' : A → V → Type 0) (E : V → Type 0) (r : Result A × V)
    → Ensures Q E r
    → ((a : A) (v : V) → Q a v → Q' a v)
    → Ensures Q' E r
Ensures-mono Q Q' E (ok a, v) h k = k a v h
Ensures-mono Q Q' E (err e, v) h k = h
Ensures-mono Q Q' E (stuck, v) h k = h

-- A claim on the state alone holds whatever the result is.
pub Ensures-state :
    {V A : Type 0} (Q E : V → Type 0) (r : Result A) (v : V) → Q v → E v → Ensures (λ _. Q) E (r, v)
Ensures-state Q E (ok a) v h k = h
Ensures-state Q E (err e) v h k = k
Ensures-state Q E stuck v h k = k

-- Nothing is claimed.
abbrev pub Anything : {V : Type 0} → V → Type 0
Anything v = Unit {0}

-- What holds of a result that was returned.
pub Ensures_ok :
    {V A : Type 0} (Q : A → V → Type 0) (E : V → Type 0) (r : Result A × V) (a : A) (v : V)
    → Ensures Q E r
    → r ≡ (ok a, v)
    → Q a v
Ensures_ok {V} {A} Q E r a v h e =
    let k : Ensures Q E (ok a, v) = subst (λ (q : Result A × V). Ensures Q E q) e h in k

-- A claim that does not depend on the step in front of it.
pub continue_any :
    {V A B : Type 0} (Q : B → V → Type 0) (r : Result A × V) (f : A → Action V B)
    → ((a : A) (v : V) → Ensures Q Anything (f a v))
    → Ensures Q Anything (continue r f)
continue_any Q (ok a, v) f k = k a v
continue_any Q (err e, v) f k = tt
continue_any Q (stuck, v) f k = tt
