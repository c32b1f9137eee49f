-- ===== src/Journal/Sealed.antt =====
-- An entry that was sealed is a valid one.
use toob_loader.Common.{ℕ, ◌<◌, ◌≤◌, ◌≡◌, refl, ap, ◌∙◌, sym, true, false}
use toob_loader.Common.{List, [], ◌++◌, length, take, drop, All, arith}
use toob_loader.Common.{◌==◌, ==_refl, take-append, length-take, length-drop}
use toob_loader.Common.{All-take, All-drop, take-length}
use toob_loader.Crc32.{compute}
use toob_loader.Crc32.Bounds.{compute_small}
use toob_loader.Journal.Wire.{seal, entry_crc, classify_entry, is_fully_erased, valid}
use toob_loader.Journal.Wire.{
  u32_bytes, entry_magic, magic_of, trailer_of, header_bytes, verify_header_crc, magic_legacy,
  magic_current, sector_magic_of,
}
use toob_loader.Journal.Bytes.{u32_at-append, u32_bytes-All}
use toob_loader.Tbm1.Layout.{u32_at}

-- The fields in front of the trailer.
abbrev marked : List ℕ → List ℕ
marked entry = u32_bytes entry_magic ++ take 56 (drop 4 entry)

length-marked : (entry : List ℕ) → 60 ≤ length entry → length (marked entry) ≡ 60
length-marked entry h = omega (arith, length-take 56 (drop 4 entry), length-drop 4 entry)

take_to : (xs ys : List ℕ) (n : ℕ) → length xs ≡ n → take n (xs ++ ys) ≡ xs
take_to xs ys n e = ap (λ m. take m (xs ++ ys)) (sym e) ∙ take-append xs ys

marked-All : (entry : List ℕ) → All (λ b. b < 256) entry → All (λ b. b < 256) (marked entry)
marked-All entry h =
    u32_bytes-All entry_magic (take 56 (drop 4 entry))
      (All-take (λ b. b < 256) 56 (drop 4 entry) (All-drop (λ b. b < 256) 4 entry h))

-- No erase value makes the magic number blank.
magic_not_erased : (v : ℕ) (bs : List ℕ) → is_fully_erased (u32_bytes entry_magic ++ bs) v ≡ false
unfolding is_fully_erased
magic_not_erased v bs = ground arith

classify_entry-valid :
    (bs : List ℕ) (v : ℕ)
    → is_fully_erased bs v ≡ false
    → (magic_of bs == entry_magic) ≡ true
    → entry_crc bs ≡ trailer_of bs
    → classify_entry bs v ≡ valid
unfolding classify_entry
classify_entry-valid bs v written e c = rw (written, e, c, ==_refl (trailer_of bs)) refl

-- The trailer that `seal` writes is the CRC of all fields.
seal-marked :
    (entry : List ℕ)
    → 60 ≤ length entry
    → seal entry ≡ marked entry ++ u32_bytes (compute (marked entry))
unfolding seal entry_crc
seal-marked entry long =
    ap (λ xs. marked entry ++ u32_bytes (compute xs))
      (take-length 60 (marked entry) (omega (arith, length-marked entry long)))

marked-valid :
    (entry : List ℕ) (v : ℕ)
    → 60 ≤ length entry
    → All (λ b. b < 256) entry
    → classify_entry (marked entry ++ u32_bytes (compute (marked entry))) v ≡ valid
unfolding entry_crc
marked-valid entry v long bytes =
    let c = compute (marked entry) in
    let n = length-marked entry long in
    classify_entry-valid (marked entry ++ u32_bytes c) v
      (magic_not_erased v (take 56 (drop 4 entry) ++ u32_bytes c)) refl
      (ap compute (take_to (marked entry) (u32_bytes c) 60 n)
        ∙ sym (
            u32_at-append (marked entry) c 60 [] n
              (compute_small (marked entry) (marked-All entry bytes))))

-- An entry of at least 60 bytes is valid once it is sealed, whatever value erased flash has.
classify_entry-seal :
    (entry : List ℕ) (v : ℕ)
    → 60 ≤ length entry
    → All (λ b. b < 256) entry
    → classify_entry (seal entry) v ≡ valid
classify_entry-seal entry v long bytes =
    ap (λ bs. classify_entry bs v) (seal-marked entry long) ∙ marked-valid entry v long bytes

-- The fields of a header in front of its CRC.
abbrev fields : ℕ → ℕ → List ℕ → List ℕ
fields seq count tmr = u32_bytes magic_current ++ (u32_bytes seq ++ (u32_bytes count ++ tmr))

crc_holds :
    (bs : List ℕ)
    → (sector_magic_of bs == magic_legacy) ≡ false
    → (sector_magic_of bs == magic_current) ≡ true
    → compute (take 124 bs) ≡ u32_at bs 124
    → verify_header_crc bs ≡ true
unfolding verify_header_crc
crc_holds bs l c e = rw (l, c, e, ==_refl (u32_at bs 124)) refl

-- The header that a rotation writes around a TMR payload of 112 bytes is accepted when it is read.
verify_header_crc-header_bytes :
    (seq count : ℕ) (tmr : List ℕ)
    → length tmr ≡ 112
    → All (λ b. b < 256) tmr
    → verify_header_crc (header_bytes seq count tmr) ≡ true
unfolding header_bytes
verify_header_crc-header_bytes seq count tmr n bytes =
    let xs = fields seq count tmr in
    let c = compute xs in
    crc_holds (xs ++ u32_bytes c) refl refl (
      ap compute (take_to xs (u32_bytes c) 124 (omega (arith, n)))
      ∙ sym (
          u32_at-append xs c 124 [] (omega (arith, n)) (
            compute_small xs (
              u32_bytes-All magic_current (u32_bytes seq ++ (u32_bytes count ++ tmr))
                (u32_bytes-All seq (u32_bytes count ++ tmr) (u32_bytes-All count tmr bytes))))))
