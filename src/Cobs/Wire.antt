-- ===== src/Cobs/Wire.antt =====
-- A frame from `boot_cobs_send_frame` through `boot_cobs_recv_frame` to the in-place decoder.
use toob_loader.Common.{ℕ, zero, suc, ◌+◌, ◌-◌, ◌*◌, ◌≤◌, ◌<◌, ◌≡◌, refl, ap, ◌∙◌, sym}
use toob_loader.Common.{true, false, ◌==◌, inl, inr, arith, some}
use toob_loader.Common.{List, [], ◌∷◌, ◌++◌, map, length, length-append, All, replicate}
use toob_loader.Common.{append_assoc, append-nil, map-append, lt→ltb}
use toob_loader.Status.{ok}
use toob_loader.Cobs.{marker, scan_block, skip_zero, send_blocks, between_markers, send_frame}
use toob_loader.Cobs.{Input, byte, recv_loop, recv_frame, decode_in_place}
use toob_loader.Cobs.Reference
use toob_loader.Cobs.Blocks.{IsBlock, IsInner, scan_block-IsBlock, emit-eq-some, send_blocks_total}
use toob_loader.Cobs.RoundTrip.{survives, send_blocks-Decodes}
use toob_loader.Cobs.InPlace.{outcome, decode_in_place_lem}

-- One block costs one byte more than it carries, and a full block 254.
block_cost :
    (xs block rest later : List ℕ)
    → IsBlock xs block rest 1
    → 254 * length later ≤ 255 * length (skip_zero rest) + 254
    → (skip_zero rest ≡ [] → later ≡ [])
    → 254 * (length block + 1 + length later) ≤ 255 * length xs + 254
unfolding skip_zero
block_cost xs block [] later b h z =
    omega (arith, ap length b.whole, length-append block [], ap length (z refl))
block_cost xs block (y ∷ ys) later b h z = elim b.stops [
  | inl e ↦ ground (arith, ap length b.whole, length-append block (y ∷ ys))
  | inr (ne, full) ↦ ground (arith, ap length b.whole, length-append block (y ∷ ys))
]

length-send_blocks :
    (f : ℕ) (xs sent : List ℕ)
    → send_blocks f xs ≡ some sent
    → (254 * length sent ≤ 255 * length xs + 254) × (xs ≡ [] → sent ≡ [])
unfolding send_blocks
length-send_blocks zero [] sent e = (omega (arith, ap length none_sent), λ _. sym none_sent)
  where
    none_sent : [] ≡ sent
    none_sent = cc
length-send_blocks (suc f) [] sent e = (omega (arith, ap length none_sent), λ _. sym none_sent)
  where
    none_sent : [] ≡ sent
    none_sent = cc
length-send_blocks zero (x ∷ xs) sent e = cc
length-send_blocks (suc f) (x ∷ xs) sent e =
    let (later, e', shape) = emit-eq-some (scan_block (x ∷ xs) 1).0 _ e in
    let (bound, empty) = length-send_blocks f (skip_zero (scan_block (x ∷ xs) 1).1) later e' in
    let cost =
      block_cost (x ∷ xs) (scan_block (x ∷ xs) 1).0 (scan_block (x ∷ xs) 1).1 later
        (scan_block-IsBlock (x ∷ xs) 1 (omega arith)) bound empty in
    (omega (arith, cost, ap length shape, length-append (scan_block (x ∷ xs) 1).0 later), λ n. cc)

-- The receiver collects inner bytes while there is room, up to the next marker.
recv_loop-inner :
    (buf_max : ℕ) (xs rx : List ℕ) (rest : List Input)
    → All IsInner xs
    → length rx + length xs ≤ buf_max
    → recv_loop (map byte xs ++ rest) buf_max rx ≡ recv_loop rest buf_max (rx ++ xs)
unfolding recv_loop
recv_loop-inner buf_max [] rx rest h k = rw append-nil
recv_loop-inner buf_max (x ∷ xs) rx rest ((pos, small), h) k =
    rw (inner, lt→ltb (length rx) buf_max (omega arith))
      (recv_loop-inner buf_max xs (rx ++ (x ∷ [])) rest h (omega (arith, length-append rx (x ∷ [])))
        ∙ ap (λ l. recv_loop rest buf_max l) (append_assoc rx (x ∷ []) xs))
  where
    inner : (x == marker) ≡ false
    inner = ground arith

recv-frame :
    (buf_max : ℕ) (sent : List ℕ)
    → 0 < length sent
    → length sent ≤ buf_max
    → All IsInner sent
    → recv_frame (map byte (marker ∷ (sent ++ (marker ∷ [])))) buf_max ≡ ok (some sent)
unfolding recv_frame recv_loop
recv-frame buf_max sent pos room h =
    rw (some_room, wire)
      (ap ok (recv_loop-inner buf_max sent [] (byte marker ∷ []) h (omega arith) ∙ last))
  where
    some_room : (buf_max == 0) ≡ false
    some_room = ground arith

    wire : map byte (sent ++ (marker ∷ [])) ≡ map byte sent ++ (byte marker ∷ [])
    wire = map-append byte sent (marker ∷ [])

    last : recv_loop (byte marker ∷ []) buf_max sent ≡ some sent
    last = rw (recv_loop, lt→ltb 0 (length sent) pos) refl

-- A payload of bytes whose last is not a zero, and where no zero follows a full block, goes over the
-- wire unchanged: the sender puts a marker, its blocks and a marker on the console; a receiver with
-- room for one byte in 254 more than the payload, and one, takes the blocks out of this; and the
-- in-place decoder puts the payload at the start of the buffer, gives its length and zeroes the rest.
pub send-recv-decode :
    (xs : List ℕ) (buf_max : ℕ)
    → 0 < length xs
    → All (λ x. x < 256) xs
    → survives 1 xs ≡ true
    → 255 * length xs + 254 ≤ 254 * buf_max
    → (sent : List ℕ) × (send_frame xs ≡ some (marker ∷ (sent ++ (marker ∷ []))))
      × (recv_frame (map byte (marker ∷ (sent ++ (marker ∷ [])))) buf_max ≡ ok (some sent))
      × (decode_in_place sent ≡ ok (xs ++ replicate (length sent - length xs) 0, length xs))
unfolding send_frame between_markers
send-recv-decode [] buf_max pos small sv room = absurd (omega arith)
send-recv-decode (x ∷ xs) buf_max pos small sv room =
    let (sent, e) = send_blocks_total (length (x ∷ xs)) (x ∷ xs) (omega arith) in
    let d = send_blocks-Decodes (length (x ∷ xs)) (x ∷ xs) sent e sv small in
    let long = not_empty sent d.same in
    (
      sent,
      ap between_markers e,
      recv-frame buf_max sent long
          (omega (arith, (length-send_blocks (length (x ∷ xs)) (x ∷ xs) sent e).0)) d.inner,
      (decode_in_place_lem sent long).0
          ∙ ap (outcome (length sent)) (d.decoded (length sent) (omega arith)),
    )
  where
    not_empty : (sent : List ℕ) → Reference.nonempty sent ≡ true → 0 < length sent
    not_empty [] h = cc
    not_empty (y ∷ ys) h = omega arith
