-- ===== src/Cobs.antt =====
-- toobloader/core/utils/boot_cobs.c: the frames on the serial console.
-- A byte is a number; a buffer is the list of its bytes.
mod Tests
pub mod Reference
pub mod InPlace
pub mod Blocks
pub mod RoundTrip
pub mod Wire
pub mod Lost
use toob_loader.Common.{
  ℕ, zero, suc, ◌+◌, ◌-◌, ◌≤◌, Bool, true, false, not, ◌&&◌, ◌||◌, ltb, leb, ◌==◌,
}
use toob_loader.Common.{List, [], ◌∷◌, ◌++◌, length, get_or, replicate, take, if◌then◌else◌}
use toob_loader.Common.{Option, none, some}
use toob_loader.Status.{Result, ok, err, stuck, invalid_arg}

-- `COBS_MARKER_START` and `COBS_MARKER_END`
abbrev pub marker : ℕ
marker = 0x00

-- `data[i] = v`; nothing out of range is ever written (`Cobs.InPlace`).
unfoldable pub write_at : List ℕ → ℕ → ℕ → List ℕ
write_at [] i v = []
write_at (x ∷ xs) zero v = v ∷ xs
write_at (x ∷ xs) (suc i) v = x ∷ write_at xs i v

-- The inner loop of `boot_cobs_send_frame`, on the bytes from `end` on: the block, and what is left.
unfoldable pub scan_block : List ℕ → ℕ → List ℕ × List ℕ
scan_block [] code = ([], [])
scan_block (x ∷ xs) code =
    let (block, rest) = scan_block xs (code + 1) in
    if not (x == 0) && ltb code 0xff then (x ∷ block, rest) else ([], x ∷ xs)

-- `if (ptr < len && data[ptr] == 0) ptr++;`
unfoldable pub skip_zero : List ℕ → List ℕ
skip_zero [] = []
skip_zero (x ∷ xs) = if x == 0 then xs else x ∷ xs

-- One round's `putchar` calls, the code and the block, in front of those of the later rounds.
unfoldable pub emit : List ℕ → Option (List ℕ) → Option (List ℕ)
emit block none = none
emit block (some sent) = some ((length block + 1) ∷ (block ++ sent))

-- The outer loop: the bytes put on the console for the data from `ptr` on. `none` is fuel spent.
unfoldable pub send_blocks : ℕ → List ℕ → Option (List ℕ)
send_blocks fuel [] = some []
send_blocks zero (x ∷ xs) = none
send_blocks (suc fuel) (x ∷ xs) =
    emit (scan_block (x ∷ xs) 1).0 (send_blocks fuel (skip_zero (scan_block (x ∷ xs) 1).1))

-- The two markers around what the loop sends.
unfoldable pub between_markers : Option (List ℕ) → Option (List ℕ)
between_markers none = none
between_markers (some sent) = some (marker ∷ (sent ++ (marker ∷ [])))

-- `boot_cobs_send_frame`: what `putchar` is called with, in order. Each round consumes a byte.
unfoldable pub send_frame : List ℕ → Option (List ℕ)
send_frame [] = some []
send_frame (x ∷ xs) = between_markers (send_blocks (length (x ∷ xs)) (x ∷ xs))

-- `for (i = 0; i < copy_len; i++) data[write_idx++] = data[read_idx++];`
unfoldable pub shift_down : ℕ → List ℕ → ℕ → ℕ → List ℕ
shift_down zero buf r w = buf
shift_down (suc n) buf r w = shift_down n (write_at buf w (get_or buf r 0)) (r + 1) (w + 1)

-- The main loop of `boot_cobs_decode_in_place`, giving the buffer and `write_idx`.
unfoldable pub decode_loop : ℕ → List ℕ → ℕ → ℕ → ℕ → Result (List ℕ × ℕ)
unfolding write_at
decode_loop zero buf len r w = if ltb r len then stuck else ok (buf, w)
decode_loop (suc fuel) buf len r w =
    let code = get_or buf r 0 in
    let copied = shift_down (code - 1) buf (r + 1) w in
    let r' = r + 1 + (code - 1) in
    let w' = w + (code - 1) in
    let zeroed = decode_loop fuel (write_at copied w' 0) len r' (w' + 1) in
    let plain = decode_loop fuel copied len r' w' in
    if not (ltb r len)
    then ok (buf, w)
    else if code == 0
    then err invalid_arg
    else if ltb (len - (r + 1)) (code - 1)
    then err invalid_arg
    else if ltb code 0xff && ltb r' len
    then if leb len w' then err invalid_arg else zeroed
    else plain

-- `boot_secure_zeroize(&data[i], n)`
unfoldable pub zeroize : List ℕ → ℕ → ℕ → List ℕ
unfolding write_at
zeroize buf i zero = buf
zeroize buf i (suc n) = zeroize (write_at buf i 0) (i + 1) n

-- The end of `boot_cobs_decode_in_place`: what lies behind `write_idx` is zeroed.
unfoldable pub finish : ℕ → Result (List ℕ × ℕ) → Result (List ℕ × ℕ)
unfolding zeroize
finish len (ok (buf, w)) = ok (if ltb w len then zeroize buf w (len - w) else buf, w)
finish len (err e) = err e
finish len stuck = stuck

-- `boot_cobs_decode_in_place`: the buffer afterwards and `*out_len`. Each round of its loop reads a
-- byte, so that the length is fuel enough.
unfoldable pub decode_in_place : List ℕ → Result (List ℕ × ℕ)
unfolding decode_loop finish
decode_in_place buf =
    if length buf == 0
    then err invalid_arg
    else finish (length buf) (decode_loop (length buf) buf (length buf) 0 0)

-- What one call of `getchar` brings: nothing within its time limit, or a byte.
pub data Input : Type 0 where
  silence : Input
  byte : ℕ → Input

-- The loop of `boot_cobs_recv_frame`, over what the console brings: `*out_len` and the buffer's
-- first bytes, or `none` while it is still waiting.
unfoldable pub recv_loop : List Input → ℕ → List ℕ → Option (List ℕ)
recv_loop [] buf_max rx = none
recv_loop (silence ∷ inputs) buf_max rx = recv_loop inputs buf_max rx
recv_loop (byte c ∷ inputs) buf_max rx =
    let kept =
      recv_loop inputs buf_max
        (if c == marker then rx else if ltb (length rx) buf_max then rx ++ (c ∷ []) else []) in
    if c == marker && ltb 0 (length rx) then some rx else kept

-- `boot_cobs_recv_frame` over what the console brings.
unfoldable pub recv_frame : List Input → ℕ → Result (Option (List ℕ))
unfolding recv_loop
recv_frame inputs buf_max =
    if buf_max == 0 then err invalid_arg else ok (recv_loop inputs buf_max [])
