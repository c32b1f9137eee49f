-- ===== src/Merkle/Accepted.antt =====
-- What it takes for an image to be accepted.
use toob_loader.Common.{
  ℕ, zero, suc, ◌+◌, ◌-◌, ◌*◌, ◌/◌, ◌%◌, ◌≤◌, ◌<◌, ◌≡◌, refl, ap, ◌∙◌, arith, subst,
}
use toob_loader.Common.{
  Bool-cases, true, false, inl, inr, ltb, ltb→lt, ltb_false→le, ◌==◌, ==_iff, if◌then◌else◌, ◌&&◌,
  ◌||◌, not, Bool,
}
use toob_loader.Common.{List, [], ◌∷◌, length, take, drop}
use native.Mathlib.Nat.{div-add-mod', mod-lt, lt_of_mul-lt-mul_right}
use toob_loader.Status.{
  is_ok→≡, Status, ok_status, is_ok, verify, invalid_arg, flash_bounds, Result, ok, err, stuck,
  Result-cases,
}
use toob_loader.Hal.{FlashHal, CryptoHal}
use toob_loader.Journal.{same_bytes}
use toob_loader.Journal.Vote.{same_bytes→≡}
use toob_loader.Crc32.Stream.{drop-drop}
use toob_loader.Merkle.{
  uint32_max, hash_len, required_chunks, read_len, check_digest, check_arguments, check_chunk,
}
use toob_loader.Merkle.{chunk_loop, verify_stream}

-- A guard that was passed.
passed :
    (b : Bool) (code next : Status)
    → is_ok code ≡ false
    → (if b then code else next) ≡ ok_status
    → (b ≡ false) × (next ≡ ok_status)
passed true code next bad e = absurd (cc (bad, e))
passed false code next bad e = (refl, e)

chosen : (b : Bool) → (if b then ok_status else verify) ≡ ok_status → b ≡ true
chosen true e = refl
chosen false e = absurd (cc (ap (λ c. is_ok c) e))

nonzero :
    (a b c d e : ℕ) → (a == 0 || b == 0 || c == 0 || d == 0 || e == 0) ≡ false → (0 < b) × (0 < c)
nonzero a b c d e h = ground arith

-- A driver's error is not `BOOT_OK`.
pub record ErrorsFail {S : Type 0} (hal : FlashHal S) (crypto : CryptoHal) : Type 0 where
  pub read_fails : (s : S) (a n : ℕ) (e : Status) → hal.read s a n ≡ err e → is_ok e ≡ false
  pub hash_fails :
      (parts : List (List ℕ)) (e : Status) → crypto.hash parts ≡ err e → is_ok e ≡ false

check_digest-ok :
    (r : Result (List ℕ)) (hashes : List ℕ)
    → ((e : Status) → r ≡ err e → is_ok e ≡ false)
    → is_ok (check_digest r hashes) ≡ true
    → r ≡ ok (take hash_len hashes)
unfolding check_digest
check_digest-ok stuck hashes fails e = cc
check_digest-ok (err c) hashes fails e = cc (fails c refl)
check_digest-ok (ok digest) hashes fails e = elim (Bool-cases (length digest == hash_len)) [
  | inr b ↦ cc (rw b at e)
  | inl b ↦ elim (Bool-cases (same_bytes digest (take hash_len hashes))) [
    | inl same ↦ ap ok (same_bytes→≡ digest (take hash_len hashes) same)
    | inr other ↦ cc (rw (b, other) at e)
  ]
]

-- A chunk of an accepted image: its bytes, and their digest, which is number `i` of the list.
pub record IsHashed {S : Type 0} (hal : FlashHal S) (crypto : CryptoHal) (s : S) (addr len : ℕ)
    (hashes : List ℕ) : Type 0 where
  pub bytes : List ℕ
  pub is_read : hal.read s addr len ≡ ok bytes
  pub is_hash : crypto.hash (bytes ∷ []) ≡ ok (take hash_len hashes)

-- What is left behind a chunk that is not the last one.
after_chunk :
    (m rem cs : ℕ) → suc m * cs < rem → (read_len rem cs ≡ cs) × (m * cs < rem - read_len rem cs)
unfolding read_len
after_chunk m rem cs h = ground (arith, add_mul m cs)
  where
    add_mul : (m cs : ℕ) → suc m * cs ≡ cs + m * cs
    add_mul m cs = omega arith

module _ {S : Type 0} (hal : FlashHal S) (crypto : CryptoHal) (fails : ErrorsFail hal crypto)
    (s : S) where
  check_chunk-ok :
      (addr len : ℕ) (hashes : List ℕ)
      → is_ok (check_chunk hal crypto s addr len hashes) ≡ true
      → IsHashed hal crypto s addr len hashes
  unfolding check_chunk
  check_chunk-ok addr len hashes e = elim (Result-cases (hal.read s addr len)) [
    | inl (bs, r) ↦ record {
      bytes = bs;
      is_read = r;
      is_hash =
          check_digest-ok (crypto.hash (bs ∷ [])) hashes (fails.hash_fails (bs ∷ []))
            (rw (check_chunk, r) at e);
    }
    | inr (inl (c, r)) ↦ absurd (cc (rw (check_chunk, r) at e, fails.read_fails s addr len c r))
    | inr (inr r) ↦ absurd (cc (rw (check_chunk, r) at e))
  ]

  at_place :
      {a a' n n' : ℕ} {hashes hashes' : List ℕ} (cs : ℕ)
      → a ≡ a'
      → n ≡ n'
      → hashes ≡ hashes'
      → IsHashed hal crypto s a (read_len n cs) hashes
      → IsHashed hal crypto s a' (read_len n' cs) hashes'
  at_place {a} {a'} {n} {n'} {hashes} {hashes'} cs ea en eh h =
      subst (λ x. IsHashed hal crypto s x (read_len n' cs) hashes') ea
        (subst (λ x. IsHashed hal crypto s a (read_len x cs) hashes') en
          (subst (λ x. IsHashed hal crypto s a (read_len n cs) x) eh h))

  -- One round of the loop.
  chunk_loop-step :
      (chunks addr rem cs : ℕ) (hashes : List ℕ)
      → chunk_loop hal crypto (suc chunks) s addr rem cs hashes ≡ ok_status
      → let len = read_len rem cs in
        IsHashed hal crypto s addr len hashes
        × (chunk_loop hal crypto chunks s (addr + len) (rem - len) cs (drop hash_len hashes)
            ≡ ok_status)
  unfolding chunk_loop
  chunk_loop-step chunks addr rem cs hashes e =
      let len = read_len rem cs in
      elim (Bool-cases (is_ok (check_chunk hal crypto s addr len hashes))) [
        | inl b ↦ (check_chunk-ok addr len hashes b, rw b at e)
        | inr b ↦ absurd (cc (b, ap (λ c. is_ok c) (rw b at e)))
      ]

  -- All rounds, while the last chunk is not empty.
  chunk_loop-IsHashed :
      (chunks addr rem cs : ℕ) (hashes : List ℕ)
      → chunk_loop hal crypto (suc chunks) s addr rem cs hashes ≡ ok_status
      → chunks * cs < rem
      → (i : ℕ) → i ≤ chunks
      → IsHashed hal crypto s
          (addr + i * cs)
          (read_len (rem - i * cs) cs)
          (drop (i * hash_len) hashes)
  chunk_loop-IsHashed chunks addr rem cs hashes e more zero h =
      at_place cs (omega arith) (omega arith) refl (chunk_loop-step chunks addr rem cs hashes e).0
  chunk_loop-IsHashed zero addr rem cs hashes e more (suc i) h = absurd (omega arith)
  chunk_loop-IsHashed (suc chunks) addr rem cs hashes e more (suc i) h =
      let (full, more') = after_chunk chunks rem cs more in
      let ih =
        chunk_loop-IsHashed chunks (addr + read_len rem cs) (rem - read_len rem cs) cs
          (drop hash_len hashes) (chunk_loop-step (suc chunks) addr rem cs hashes e).1 more' i
          (omega arith) in
      at_place cs (omega (arith, full)) (omega (arith, full))
        (drop-drop (i * hash_len) hash_len hashes
          ∙ ap (λ k. drop k hashes) {x = hash_len + i * hash_len} {y = suc i * hash_len}
              (omega arith))
        ih

  check_arguments-ok :
      (addr size cs place hashes_len chunks arena : ℕ)
      → check_arguments hal crypto addr size cs place hashes_len chunks arena ≡ ok_status
      → (0 < cs) × (0 < chunks) × (chunks ≡ required_chunks size cs)
  unfolding check_arguments
  check_arguments-ok addr size cs place hashes_len chunks arena e =
      let (given, e1) =
        passed (size == 0 || cs == 0 || chunks == 0 || arena == 0 || hashes_len == 0) invalid_arg _
          refl e in
      let (_, e2) = passed (ltb (uint32_max - addr) size) flash_bounds _ refl e1 in
      let (_, e3) = passed (ltb (uint32_max / cs) chunks) invalid_arg _ refl e2 in
      let (_, e4) = passed (ltb (uint32_max / hash_len) chunks) invalid_arg _ refl e3 in
      let (_, e5) = passed (ltb hashes_len (chunks * hash_len)) invalid_arg _ refl e4 in
      let (_, e6) = passed (ltb (uint32_max - chunks * hash_len) place) invalid_arg _ refl e5 in
      let (_, e7) = passed (ltb hal.max_sector_size cs) invalid_arg _ refl e6 in
      let (_, e8) =
        passed (ltb 0 hal.write_align && not (cs % hal.write_align == 0)) invalid_arg _ refl e7 in
      let (_, e9) = passed (ltb arena cs) invalid_arg _ refl e8 in
      let (a, b) = nonzero size cs chunks arena hashes_len given in
      (a, b, (==_iff chunks (required_chunks size cs)).0 (chosen _ e9))

-- The last chunk begins inside the image.
last_begins :
    (size cs chunks : ℕ) → 0 < cs → suc chunks ≡ required_chunks size cs → chunks * cs < size
unfolding required_chunks
last_begins size cs chunks h e = elim (Bool-cases (ltb 0 (size % cs))) [
  | inl r ↦
      let q : chunks ≡ size / cs = omega (arith, rw r at e) in
      omega (arith, ltb→lt 0 (size % cs) r, div-add-mod' size cs, ap (λ (t : ℕ). t * cs) q)
  | inr r ↦
      let q : suc chunks ≡ size / cs = omega (arith, rw r at e) in
      omega (arith, h, div-add-mod' size cs, ap (λ (t : ℕ). t * cs) q)
]

-- All chunks together reach the end of the image.
chunks_cover : (size cs : ℕ) → 0 < cs → size ≤ required_chunks size cs * cs
unfolding required_chunks
chunks_cover size cs h = elim (Bool-cases (ltb 0 (size % cs))) [
  | inl r ↦ rw r (omega (arith, div-add-mod' size cs, mod-lt size h))
  | inr r ↦ rw r (omega (arith, div-add-mod' size cs, ltb_false→le 0 (size % cs) r))
]

module _ {S : Type 0} (hal : FlashHal S) (crypto : CryptoHal) (fails : ErrorsFail hal crypto)
    (s : S) where
  image-IsHashed :
      (chunks addr size cs : ℕ) (hashes : List ℕ)
      → 0 < cs
      → 0 < chunks
      → chunks ≡ required_chunks size cs
      → chunk_loop hal crypto chunks s addr size cs hashes ≡ ok_status
      → (i : ℕ) → i * cs < size
      → IsHashed hal crypto s
          (addr + i * cs)
          (read_len (size - i * cs) cs)
          (drop (i * hash_len) hashes)
  image-IsHashed zero addr size cs hashes h some_chunks needed e i inside = absurd (omega arith)
  image-IsHashed (suc last) addr size cs hashes h some_chunks needed e i inside =
      let covered = ap (λ (t : ℕ). t * cs) needed in
      let below : i < suc last =
        lt_of_mul-lt-mul_right cs (omega (arith, covered, chunks_cover size cs h)) in
      chunk_loop-IsHashed hal crypto fails s last addr size cs hashes e
        (last_begins size cs last h needed) i (omega arith)

  -- If an image is accepted, the list has one hash for each chunk of the image, and each chunk that
  -- begins inside the image can be read and has the hash that the list gives for it.
  pub verify_stream-IsHashed :
      (addr size cs place : ℕ) (hashes : List ℕ) (chunks arena : ℕ)
      → verify_stream hal crypto s addr size cs place hashes chunks arena ≡ ok_status
      → (chunks ≡ required_chunks size cs)
        × ((i : ℕ)
            → i * cs < size
            → IsHashed hal crypto s
                (addr + i * cs)
                (read_len (size - i * cs) cs)
                (drop (i * hash_len) hashes))
  unfolding verify_stream
  verify_stream-IsHashed addr size cs place hashes chunks arena e =
      let code = check_arguments hal crypto addr size cs place (length hashes) chunks arena in
      elim (Bool-cases (is_ok code)) [
        | inl b ↦
            let (chunk, count, needed) =
              check_arguments-ok hal crypto fails s addr size cs place (length hashes) chunks arena
                (is_ok→≡ code b) in
            (needed, image-IsHashed chunks addr size cs hashes chunk count needed (rw b at e))
        | inr b ↦ absurd (cc (b, ap (λ c. is_ok c) (rw b at e)))
      ]
