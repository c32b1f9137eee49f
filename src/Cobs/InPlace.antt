-- ===== src/Cobs/InPlace.antt =====
-- `boot_cobs_decode_in_place` against the list decoder: the writes never reach a byte that is still
-- to be read.
use toob_loader.Common.{
  ℕ, zero, suc, ◌+◌, ◌-◌, ◌≤◌, ◌<◌, ◌≡◌, ◌≢◌, ==_iff, min, replicate, refl, ap, ap₂, ◌∙◌, sym,
  arith, le→ltb_false, lt→ltb, lt→leb_false, ltb_false→le, append_assoc, ◌&&◌,
}
use toob_loader.Common.{ltb, leb, ◌==◌, Bool-cases, inl, inr, take, drop}
use toob_loader.Common.{length-take, length-drop, take-append-drop, if◌then◌else◌}
use toob_loader.Status.{Result, ok, err, stuck, invalid_arg}
use toob_loader.Cobs.Reference.{join, between, nonempty}
use toob_loader.Cobs.Reference
use toob_loader.Cobs.Reference.{decode-ne-stuck}
use toob_loader.Common.{List, [], ◌∷◌, ◌++◌, length, get_or, append-nil, length-append}
use toob_loader.Cobs.{write_at, shift_down, decode_loop, zeroize, finish, decode_in_place}

write_at-append :
    (xs ys : List ℕ) (y v : ℕ) → write_at (xs ++ (y ∷ ys)) (length xs) v ≡ xs ++ (v ∷ ys)
unfolding write_at
write_at-append [] ys y v = refl
write_at-append (x ∷ xs) ys y v = ap (λ l. x ∷ l) (write_at-append xs ys y v)

get_or-append : (xs ys : List ℕ) (y d : ℕ) → get_or (xs ++ (y ∷ ys)) (length xs) d ≡ y
get_or-append [] ys y d = refl
get_or-append (x ∷ xs) ys y d = get_or-append xs ys y d

-- Reading `k` bytes behind `xs`.
get_or-append_add :
    (xs ys zs : List ℕ) (y d : ℕ) → get_or (xs ++ (ys ++ (y ∷ zs))) (length xs + length ys) d ≡ y
get_or-append_add xs ys zs y d =
    rw (← append_assoc xs ys (y ∷ zs), ← length-append xs ys) (get_or-append (xs ++ ys) zs y d)

-- One round of the copy: the first byte of the gap is overwritten by the byte behind the gap.
copy_byte :
    (out gs ys : List ℕ) (g x r w : ℕ)
    → r ≡ length out + suc (length gs)
    → w ≡ length out
    → let buf = out ++ (g ∷ (gs ++ (x ∷ ys))) in
      write_at buf w (get_or buf r 0) ≡ (out ++ (x ∷ [])) ++ ((gs ++ (x ∷ [])) ++ ys)
copy_byte out gs ys g x r w hr hw =
    rw (hr, hw, get_or-append_add out (g ∷ gs) ys x 0, write_at-append out (gs ++ (x ∷ ys)) g x)
      (simp append_assoc)

-- A block moves down over a gap; the gap keeps its length and stands behind the block.
pub shift_down_lem :
    (block out gap rest : List ℕ) (r w : ℕ)
    → 0 < length gap
    → r ≡ length out + length gap
    → w ≡ length out
    → (gap' : List ℕ) × (length gap' ≡ length gap)
      × (shift_down (length block) (out ++ (gap ++ (block ++ rest))) r w
          ≡ (out ++ block) ++ (gap' ++ rest))
unfolding shift_down
shift_down_lem [] out gap rest r w pos hr hw = (gap, refl, (rw append-nil))
shift_down_lem (x ∷ block) out [] rest r w pos hr hw = absurd (omega arith)
shift_down_lem (x ∷ block) out (g ∷ gs) rest r w pos hr hw =
    let (gap', same, moved) =
      shift_down_lem block (out ++ (x ∷ [])) (gs ++ (x ∷ [])) rest (r + 1) (w + 1)
        (omega (arith, length-append gs (x ∷ [])))
        (omega (arith, length-append gs (x ∷ []), length-append out (x ∷ [])))
        (omega (arith, length-append out (x ∷ []))) in
    (
      gap',
      omega (arith, same, length-append gs (x ∷ [])),
      ap (λ l. shift_down (length block) l (r + 1) (w + 1))
            (copy_byte out gs (block ++ rest) g x r w hr hw)
          ∙ moved
          ∙ simp append_assoc,
    )

-- The buffer of a run holds `out`, then what the list decoder gives, then what is left over.
abbrev Agrees : List ℕ → ℕ → Result (List ℕ × ℕ) → Result (List ℕ) → Type 0
Agrees out len (ok (buf, w)) (ok tail) =
    (left : List ℕ) × (buf ≡ (out ++ tail) ++ left)
    × (w ≡ length (out ++ tail))
    × (length buf ≡ len)
Agrees out len (err e) (err e') = e ≡ e'
Agrees out len stuck stuck = Unit
Agrees out len _ _ = ⊥

Agrees-join :
    (out : List ℕ) (len c : ℕ) (rest : List ℕ) (r : Result (List ℕ × ℕ)) (d : Result (List ℕ))
    → Agrees ((out ++ take (c - 1) rest) ++ between c (drop (c - 1) rest) []) len r d
    → Agrees out len r (join c rest d)
unfolding join
Agrees-join out len c rest (ok (buf, w)) (ok tail) (left, e, k, l) =
    (left, e ∙ ap (λ t. t ++ left) whole, k ∙ ap length whole, l)
  where
    whole :
        ((out ++ take (c - 1) rest) ++ between c (drop (c - 1) rest) []) ++ tail
        ≡ out ++ (take (c - 1) rest ++ between c (drop (c - 1) rest) tail)
    whole = elim (Bool-cases (ltb c 0xff && nonempty (drop (c - 1) rest))) [
      | inl e ↦ rw e (simp append_assoc)
      | inr e ↦ rw e (simp (append_assoc, append-nil))
    ]
Agrees-join out len c rest (err e) (err e') h = h
Agrees-join out len c rest stuck stuck h = tt
Agrees-join out len c rest _ _ h = elim h [ ]

-- `read_idx < len` says that something is left to decode.
ltb-eq-nonempty : (left : List ℕ) (r len : ℕ) → len ≡ r + length left → ltb r len ≡ nonempty left
ltb-eq-nonempty [] r len h = ground arith
ltb-eq-nonempty (x ∷ xs) r len h = ground arith

-- The copy of one block of code `c`, with the code byte joined to the gap.
move_block :
    (out gap rest : List ℕ) (c r w : ℕ)
    → r ≡ length out + length gap
    → w ≡ length out
    → c - 1 ≤ length rest
    → (h : ℕ) × (gap' : List ℕ) × (length gap' ≡ length gap)
      × (shift_down (c - 1) (out ++ (gap ++ (c ∷ rest))) (r + 1) w
          ≡ (out ++ take (c - 1) rest) ++ (h ∷ (gap' ++ drop (c - 1) rest)))
move_block out gap rest c r w hr hw fits = split (
    shift_down_lem (take (c - 1) rest) out (gap ++ (c ∷ [])) (drop (c - 1) rest) (r + 1) w
      (omega (arith, longer)) (omega (arith, longer)) hw)
  where
    longer : length (gap ++ (c ∷ [])) ≡ length gap + 1
    longer = length-append gap (c ∷ [])

    buffer :
        out ++ (gap ++ (c ∷ rest))
        ≡ out ++ ((gap ++ (c ∷ [])) ++ (take (c - 1) rest ++ drop (c - 1) rest))
    buffer = rw (take-append-drop (c - 1) rest) (simp append_assoc)

    size : c - 1 ≡ length (take (c - 1) rest)
    size = omega (arith, length-take (c - 1) rest)

    split :
        (gap' : List ℕ) × (length gap' ≡ length (gap ++ (c ∷ [])))
          × (shift_down
                (length (take (c - 1) rest))
                (out ++ ((gap ++ (c ∷ [])) ++ (take (c - 1) rest ++ drop (c - 1) rest)))
                (r + 1)
                w
              ≡ (out ++ take (c - 1) rest) ++ (gap' ++ drop (c - 1) rest))
        → (h : ℕ) × (gap' : List ℕ) × (length gap' ≡ length gap)
          × (shift_down (c - 1) (out ++ (gap ++ (c ∷ rest))) (r + 1) w
              ≡ (out ++ take (c - 1) rest) ++ (h ∷ (gap' ++ drop (c - 1) rest)))
    split ([], l, e) = absurd (omega (arith, longer, l))
    split (h ∷ gap', l, e) =
        (h, gap', omega (arith, longer, l), ap₂ (λ n b. shift_down n b (r + 1) w) size buffer ∙ e)

-- What follows a block: the zero is written over the gap if one is due, and the loop goes on.
after_block :
    (fuel : ℕ) (copied out gap left : List ℕ) (c h len r w : ℕ)
    → copied ≡ out ++ (h ∷ (gap ++ left))
    → r ≡ length out + suc (length gap)
    → w ≡ length out
    → len ≡ r + length left
    → ((out' gap' : List ℕ) (w' : ℕ)
        → r ≡ length out' + length gap'
        → w' ≡ length out'
        → Agrees out' len
            (decode_loop fuel (out' ++ (gap' ++ left)) len r w')
            (Reference.decode fuel left))
    → Agrees
        (out ++ between c left [])
        len
        (if ltb c 0xff && ltb r len
          then if leb len w
            then err invalid_arg
            else decode_loop fuel (write_at copied w 0) len r (w + 1)
          else decode_loop fuel copied len r w)
        (Reference.decode fuel left)
after_block fuel copied out gap left c h len r w moved hr hw hl rec =
    rw (moved, ltb-eq-nonempty left r len hl)
      (elim (Bool-cases (ltb c 0xff && nonempty left)) [
        | inl due ↦
            rw (due, lt→leb_false len w (omega arith), hw, write_at-append out (gap ++ left) h 0)
              (rw (append_assoc out (0 ∷ []) (gap ++ left)) at (
                rec (out ++ (0 ∷ [])) gap (length out + 1)
                  (omega (arith, length-append out (0 ∷ [])))
                  (omega (arith, length-append out (0 ∷ [])))))
        | inr plain ↦ rw (plain, append-nil) (rec out (h ∷ gap) w hr hw)
      ])

loop-Agrees :
    (fuel : ℕ) (out gap rest : List ℕ) (len r w : ℕ)
    → r ≡ length out + length gap
    → w ≡ length out
    → len ≡ r + length rest
    → Agrees out len (decode_loop fuel (out ++ (gap ++ rest)) len r w) (Reference.decode fuel rest)
unfolding decode_loop Reference.decode
loop-Agrees zero out gap [] len r w hr hw hl =
    rw (le→ltb_false r len (omega arith))
      (gap, simp append-nil, rw append-nil hw, simp (append-nil, length-append {0}) (omega arith))
loop-Agrees (suc fuel) out gap [] len r w hr hw hl =
    rw (le→ltb_false r len (omega arith))
      (gap, simp append-nil, rw append-nil hw, simp (append-nil, length-append {0}) (omega arith))
loop-Agrees zero out gap (c ∷ rest) len r w hr hw hl = rw (lt→ltb r len (omega arith)) tt
loop-Agrees (suc fuel) out gap (c ∷ rest) len r w hr hw hl =
    rw (hr, get_or-append_add out gap rest c 0, ← hr, lt→ltb r len (omega arith), remaining)
      (elim (Bool-cases (c == 0)) [
        | inl z ↦ rw z refl
        | inr nz ↦ rw nz (elim (Bool-cases (ltb (length rest) (c - 1))) [
          | inl short ↦ rw short refl
          | inr fits ↦ rw fits (
              let nonzero : c ≢ 0 = (λ z. cc (nz, (==_iff c 0).1 z)) in
              let enough = ltb_false→le (length rest) (c - 1) fits in
              let (h, gap', same, moved) = move_block out gap rest c r w hr hw enough in
              Agrees-join out len c rest _ (Reference.decode fuel (drop (c - 1) rest)) (
                after_block fuel _ (out ++ take (c - 1) rest) gap' (drop (c - 1) rest) c h len
                  (r + 1 + (c - 1)) (w + (c - 1)) moved (omega (arith, sizes, same, enough))
                  (omega (arith, sizes, enough)) (omega (arith, sizes, enough, nonzero))
                  (λ out' gap'' w' p q.
                    loop-Agrees fuel out' gap'' (drop (c - 1) rest) len (r + 1 + (c - 1)) w' p q
                      (omega (arith, sizes, enough)))))
        ])
      ])
  where
    remaining : len - (r + 1) ≡ length rest
    remaining = omega arith

    sizes :
        (length (out ++ take (c - 1) rest) ≡ length out + min (c - 1) (length rest))
        × (length (drop (c - 1) rest) ≡ length rest - (c - 1))
    sizes = (
      length-append out (take (c - 1) rest) ∙ ap (λ n. length out + n) (length-take (c - 1) rest),
      length-drop (c - 1) rest,
    )

zeroize-append :
    (xs ys : List ℕ) (i : ℕ)
    → i ≡ length xs
    → zeroize (xs ++ ys) i (length ys) ≡ xs ++ replicate (length ys) 0
unfolding zeroize
zeroize-append xs [] i e = refl
zeroize-append xs (y ∷ ys) i e =
    ap (λ b. zeroize b (i + 1) (length ys)) step
    ∙ zeroize-append (xs ++ (0 ∷ [])) ys (i + 1) (omega (arith, length-append xs (0 ∷ [])))
    ∙ append_assoc xs (0 ∷ []) (replicate (length ys) 0)
  where
    step : write_at (xs ++ (y ∷ ys)) i 0 ≡ (xs ++ (0 ∷ [])) ++ ys
    step = rw (e, write_at-append xs ys y 0) (simp append_assoc)

-- The outcome of the function when the list decoder gives `d` on a buffer of `len` bytes.
abbrev pub outcome : ℕ → Result (List ℕ) → Result (List ℕ × ℕ)
outcome len (ok tail) = ok (tail ++ replicate (len - length tail) 0, length tail)
outcome len (err e) = err e
outcome len stuck = stuck

finish_lem :
    (len : ℕ) (r : Result (List ℕ × ℕ)) (d : Result (List ℕ))
    → Agrees [] len r d
    → finish len r ≡ outcome len d
unfolding finish
finish_lem len (ok (buf, w)) (ok tail) (left, e, k, l) = elim (Bool-cases (ltb w len)) [
  | inl more ↦ rw more (ap₂ (λ b n. ok (b, n)) (zeroed (omega (arith, size))) k)
  | inr full ↦ rw full (ap₂ (λ b n. ok (b, n)) (whole (ltb_false→le w len full)) k)
]
  where
    size : len ≡ length tail + length left
    size = sym l ∙ ap length e ∙ length-append tail left

    zeroed :
        len - w ≡ length left → zeroize buf w (len - w) ≡ tail ++ replicate (len - length tail) 0
    zeroed d =
        rw (e, d)
          (zeroize-append tail left w k ∙ ap (λ n. tail ++ replicate n 0) (omega (arith, size)))

    whole : len ≤ w → buf ≡ tail ++ replicate (len - length tail) 0
    whole h = e ∙ ap (λ t. tail ++ t) (none_left left (omega (arith, size)))
      where
        none_left : (xs : List ℕ) → length xs ≡ 0 → xs ≡ replicate (len - length tail) 0
        none_left [] z = rw (same)
          where
            same : len - length tail ≡ 0
            same = omega (arith, size)
        none_left (y ∷ ys) z = absurd (omega arith)
finish_lem len (err e) (err e') h = ap err h
finish_lem len stuck stuck h = refl
finish_lem len _ _ h = elim h [ ]

outcome-ne-stuck : (len : ℕ) (d : Result (List ℕ)) → d ≢ stuck → outcome len d ≢ stuck
outcome-ne-stuck len (ok tail) h e = cc e
outcome-ne-stuck len (err code) h e = cc e
outcome-ne-stuck len stuck h e = h refl

decode_in_place-outcome :
    (buf : List ℕ)
    → 0 < length buf
    → decode_in_place buf ≡ outcome (length buf) (Reference.decode (length buf) buf)
unfolding decode_in_place
decode_in_place-outcome buf pos = elim (Bool-cases (length buf == 0)) [
  | inl e ↦ absurd (omega (arith, (==_iff (length buf) 0).0 e))
  | inr e ↦ rw e (
      finish_lem (length buf) _ _
        (loop-Agrees (length buf) [] [] buf (length buf) 0 0 (omega arith) refl (omega arith)))
]

-- `boot_cobs_decode_in_place` never runs on, and gives what the list decoder gives on the bytes of
-- the buffer: the same error, or its bytes at the start of the buffer, their number as `*out_len`,
-- and zeroes in all the rest.
pub decode_in_place_lem :
    (buf : List ℕ)
    → 0 < length buf
    → (decode_in_place buf ≡ outcome (length buf) (Reference.decode (length buf) buf))
      × (decode_in_place buf ≢ stuck)
decode_in_place_lem buf pos =
    let same = decode_in_place-outcome buf pos in
    (
      same,
      λ h.
          outcome-ne-stuck (length buf) _ (decode-ne-stuck (length buf) buf (omega arith))
            (sym same ∙ h),
    )
