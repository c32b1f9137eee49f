-- ===== src/Stage0/Voted.antt =====
-- The vote on the DSLC: what is confirmed was read three times.
use toob_loader.Common.{ℕ, zero, suc, ◌≤◌, ◌<◌, ◌≡◌, ap, ◌∙◌, subst, inl, inr, arith}
use toob_loader.Common.{ltb, ◌==◌, List, [], ◌∷◌, ◌++◌, map, take, length, some}
use toob_loader.Common.{append_assoc, Bool-cases, ltb→lt, Option-cases}
use toob_loader.Status.{Result}
use toob_loader.Stage0.Boot.{dslc_byte, count_same, find_three, vote_rounds, vote_dslc}

count_same-append : (x : ℕ) (xs ys : List ℕ) → count_same x xs ≤ count_same x (xs ++ ys)
unfolding count_same
count_same-append x [] ys = omega arith
count_same-append x (z ∷ xs) ys =
    let h = count_same-append x xs ys in
    elim (Bool-cases (x == z)) [ inl e ↦ rw e (omega arith) | inr e ↦ rw e h ]

some_inj : {a b : ℕ} → some a ≡ some b → a ≡ b
some_inj h = cc

find_three-many :
    (xs bytes : List ℕ) (d : ℕ) → find_three xs bytes ≡ some d → 2 < count_same d bytes
unfolding find_three
find_three-many [] bytes d h = absurd (cc h)
find_three-many (x ∷ xs) bytes d h = elim (Bool-cases (ltb 2 (count_same x bytes))) [
  | inl e ↦
      let same : x ≡ d = some_inj (rw e at h) in
      subst (λ y. 2 < count_same y bytes) same (ltb→lt _ _ e)
  | inr e ↦ find_three-many xs bytes d (rw e at h)
]

-- The bytes of the rounds that are left.
abbrev dslc_bytes : ℕ → List (Result (List ℕ)) → List ℕ
dslc_bytes n reads = map dslc_byte (take n reads)

vote_rounds-many :
    (n : ℕ) (seen : List ℕ) (reads : List (Result (List ℕ))) (d : ℕ)
    → vote_rounds n seen reads ≡ some d
    → 2 < count_same d (seen ++ dslc_bytes n reads)
unfolding vote_rounds
vote_rounds-many zero seen reads d h = absurd (cc h)
vote_rounds-many (suc n) seen [] d h = absurd (cc h)
vote_rounds-many (suc n) seen (r ∷ later) d h =
    let bytes = seen ++ (dslc_byte r ∷ []) in
    subst (λ xs. 2 < count_same d xs) (append_assoc seen (dslc_byte r ∷ []) (dslc_bytes n later))
      (elim (Bool-cases (ltb (length seen) 2)) [
        | inl early ↦ vote_rounds-many n bytes later d (rw (vote_rounds, early) at h)
        | inr enough ↦ elim (Option-cases (find_three bytes bytes)) [
          | inl e ↦ vote_rounds-many n bytes later d (rw (vote_rounds, enough, e) at h)
          | inr (x, e) ↦
              let same : x ≡ d = some_inj (rw (vote_rounds, enough, e) at h) in
              let many : 2 < count_same d bytes =
                find_three-many bytes bytes d (e ∙ ap some same) in
              omega (arith, many, count_same-append d bytes (dslc_bytes n later))
        ]
      ])

-- A byte that is confirmed stands three times at least among the first five reads.
pub vote_dslc-many :
    (reads : List (Result (List ℕ))) (d : ℕ)
    → vote_dslc reads ≡ some d
    → 2 < count_same d (map dslc_byte (take 5 reads))
unfolding vote_dslc
vote_dslc-many reads d h = vote_rounds-many 5 [] reads d h
