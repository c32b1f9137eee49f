-- ===== src/Cobs/Reference.antt =====
-- COBS decoding as a function from lists to lists, with no buffer that is overwritten.
use toob_loader.Common.{ℕ, zero, suc, ◌-◌, ◌≤◌, ◌≡◌, refl, ◌≢◌, Bool, true, false, ◌&&◌, ltb, ◌==◌}
use toob_loader.Common.{List, [], ◌∷◌, ◌++◌, length, take, drop, if◌then◌else◌, arith, length-drop}
use toob_loader.Status.{Result, ok, err, stuck, invalid_arg}

abbrev pub nonempty : List ℕ → Bool
nonempty [] = false
nonempty (x ∷ xs) = true

-- The zero that stands between a block and what follows it.
abbrev pub between : ℕ → List ℕ → List ℕ → List ℕ
between code rest tail = if ltb code 0xff && nonempty rest then 0 ∷ tail else tail

-- A block of code `c` taken from `rest` in front of what the rest decodes to.
unfoldable pub join : ℕ → List ℕ → Result (List ℕ) → Result (List ℕ)
join c rest (ok more) = ok (take (c - 1) rest ++ between c (drop (c - 1) rest) more)
join c rest (err e) = err e
join c rest stuck = stuck

unfoldable pub decode : ℕ → List ℕ → Result (List ℕ)
decode fuel [] = ok []
decode zero (c ∷ rest) = stuck
decode (suc fuel) (c ∷ rest) =
    let tail = decode fuel (drop (c - 1) rest) in
    if c == 0
    then err invalid_arg
    else if ltb (length rest) (c - 1)
    then err invalid_arg
    else join c rest tail

join-stuck : (c : ℕ) (rest : List ℕ) (r : Result (List ℕ)) → join c rest r ≡ stuck → r ≡ stuck
unfolding join
join-stuck c rest (ok more) h = cc
join-stuck c rest (err e) h = cc
join-stuck c rest stuck h = refl

-- Each round consumes a byte, so that the length is fuel enough.
pub decode-ne-stuck : (fuel : ℕ) (xs : List ℕ) → length xs ≤ fuel → decode fuel xs ≢ stuck
unfolding decode
decode-ne-stuck fuel [] h e = ground arith
decode-ne-stuck zero (c ∷ rest) h e = absurd (omega arith)
decode-ne-stuck (suc fuel) (c ∷ rest) h e = ground (
  arith,
  decode-ne-stuck fuel (drop (c - 1) rest),
  length-drop (c - 1) rest,
  join-stuck c rest (decode fuel (drop (c - 1) rest)),
)
