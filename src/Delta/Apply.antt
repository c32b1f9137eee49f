-- ===== src/Delta/Apply.antt =====
-- `boot_delta_apply`: the header of a delta stream, resumption, the loop over its instructions.
use toob_loader.Common.{ℕ, zero, suc, ◌+◌, ◌-◌, ◌*◌, ◌/◌, ◌%◌, ◌^◌, true, not, ◌&&◌, ◌||◌}
use toob_loader.Common.{ltb, leb, ◌==◌, if◌then◌else◌, List, [], ◌∷◌, length, take, min}
use toob_loader.Status.{
  Status, crypto, flash_hw, flash_bounds, verify, invalid_arg, invalid_state, downgrade, is_ok,
  Result, ok, err, stuck,
}
use toob_loader.Hal.{FlashHal, CryptoHal}
use toob_loader.Crc32
use toob_loader.Journal.{Journal, Sector, same_bytes}
use toob_loader.Journal.Intent
use toob_loader.Journal.Wire.{intent_of, delta_chunk_id_of}
use toob_loader.Flow.{Action, ◌>>◌, continue, give}
use toob_loader.Delta.{
  Setup, Vm, Decoder, TdsHeader, TdsInstr, tds_header_of, tds_instr_of, tds_magic, tds_header_size,
  tds_instr_size,
}
use toob_loader.Delta.{op_copy_base, op_insert_lit, op_bzero, op_eof}
use toob_loader.Delta.Flush.{emit_flush, size_at, window, with_chunk_id}
use toob_loader.Delta.Produce.{produce_copy_or_zero, produce_insert, drain_decoder}

-- The layout of the arena: the decoder, then the buffer of the reads, then that of the writes. `bytes`
-- is the size of the decoder. The result is `read_cap` with `write_cap`.
unfoldable pub layout : ℕ → ℕ → ℕ → Result (ℕ × ℕ)
layout arena_len bytes input_size =
    let hsd_size = (bytes + 7) / 8 * 8 in
    let rounded = (input_size + 7) / 8 * 8 in
    let read_cap = if rounded == 0 then 8 else rounded in
    let write_cap = (arena_len - hsd_size - read_cap) / 8 * 8 in
    if leb arena_len (hsd_size + 8)
    then err invalid_state
    else if leb arena_len (hsd_size + read_cap + 8)
    then err invalid_state
    else if ltb write_cap 8
    then err invalid_state
    else ok (read_cap, write_cap)

-- The checks of the header: magic and CRC, sizes, the place of the literals.
unfoldable pub check_header : ℕ → ℕ → ℕ → List ℕ → Status
check_header delta_max dest_max base_max bs =
    let hdr = tds_header_of bs in
    let instr_bytes = (hdr.instr_count * tds_instr_size) % 2 ^ 32 in
    let expect_lit = tds_header_size + instr_bytes in
    if not (hdr.tds_magic_field == tds_magic && Crc32.compute (take 28 bs) == hdr.header_crc32)
    then verify
    else if hdr.expected_target_size == 0
        || ltb dest_max hdr.expected_target_size
        || ltb base_max hdr.base_size
    then flash_bounds
    else if not (hdr.instr_count == 0) && not (instr_bytes / hdr.instr_count == tds_instr_size)
    then invalid_arg
    else if ltb (4294967295 - tds_header_size) instr_bytes
    then invalid_arg
    else if not (hdr.literal_block_offset == expect_lit)
    then verify
    else if ltb delta_max expect_lit
    then flash_bounds
    else Status.ok_status

-- The checkpoint that a run resumes from.
unfoldable pub resume_from : List ℕ → ℕ → ℕ
resume_from txn target_size =
    if intent_of txn == Intent.update_pending || intent_of txn == Intent.txn_rollback_pending
    then min (delta_chunk_id_of txn) target_size
    else 0

-- The walk over the sectors in front of the checkpoint, which it has to end on.
unfoldable pub walk_sectors : (ℕ → Result ℕ) → ℕ → ℕ → ℕ → ℕ → Result (Unit {0})
walk_sectors sector_size zero dest curr checkpoint =
    if ltb curr checkpoint then stuck else if curr == checkpoint then ok tt else err invalid_state
walk_sectors sector_size (suc fuel) dest curr checkpoint =
    let one : Result (Unit {0}) = elim (size_at sector_size ((dest + curr) % 2 ^ 32)) [
      | ok size ↦
          if ltb (4294967295 - curr) (size % 2 ^ 32)
          then err flash_bounds
          else walk_sectors sector_size fuel dest (curr + size % 2 ^ 32) checkpoint
      | err e ↦ err e
      | stuck ↦ stuck
    ] in
    if ltb curr checkpoint then one else if curr == checkpoint then ok tt else err invalid_state

module _ {S : Type 0} (hal : FlashHal S) where
  -- The pieces of the base image that `verify_ghost_base` hashes.
  unfoldable pub base_pieces : ℕ → S → ℕ → ℕ → ℕ → ℕ → Result (List (List ℕ))
  base_pieces zero s addr size cap off = if ltb off size then stuck else ok []
  base_pieces (suc fuel) s addr size cap off =
      let step = window size off cap in
      let one : Result (List (List ℕ)) = elim (hal.read s ((addr + off) % 2 ^ 32) step) [
        | ok bs ↦ elim (base_pieces fuel s addr size cap (off + step)) [
          | ok pieces ↦ ok (bs ∷ pieces)
          | err e ↦ err e
          | stuck ↦ stuck
        ]
        | err e ↦ err flash_hw
        | stuck ↦ stuck
      ] in
      if ltb off size then one else ok []

  -- `verify_ghost_base`
  unfoldable pub verify_ghost_base : CryptoHal → S → Setup → List ℕ → Result (Unit {0})
  verify_ghost_base hw_crypto s setup fingerprint =
      elim (base_pieces setup.source_size s setup.base_addr setup.source_size setup.write_cap 0) [
        | ok pieces ↦ elim (hw_crypto.hash pieces) [
          | ok digest ↦ if same_bytes (take 8 digest) fingerprint then ok tt else err downgrade
          | err e ↦ err crypto
          | stuck ↦ err crypto
        ]
        | err e ↦ err e
        | stuck ↦ stuck
      ]

  -- The next instruction: its place in the stream, and its checksum.
  unfoldable pub fetch : S → Setup → ℕ → Result TdsInstr
  fetch s setup off =
      if ltb (4294967295 - off) tds_instr_size || ltb setup.delta_max_size (off + tds_instr_size)
      then err invalid_arg
      else elim (hal.read s ((setup.delta_addr + off) % 2 ^ 32) tds_instr_size) [
        | ok bs ↦
            if Crc32.compute (take 12 bs) == (tds_instr_of bs).op_crc32
            then ok (tds_instr_of bs)
            else err verify
        | err e ↦ err flash_hw
        | stuck ↦ stuck
      ]

module _ {S D : Type 0} (hal : FlashHal S) (sectors : List Sector) (crypto_hal : CryptoHal)
    (sector_size : ℕ → Result ℕ) (dec : Decoder D) (setup : Setup) where
  -- `emit_flush` where the target is complete.
  unfoldable pub flush_at_end : Action (Vm S D) (Unit {0})
  flush_at_end v =
      if v.target_off == setup.target_size && ltb 0 (length v.buf)
      then emit_flush hal sectors crypto_hal sector_size setup true v
      else (ok tt, v)

  -- One instruction; the result is `lit_read_off`.
  unfoldable pub execute_instr : TdsInstr → ℕ → Action (Vm S D) ℕ
  execute_instr inst lit_off v =
      if inst.opcode == op_copy_base || inst.opcode == op_bzero
      then if ltb (4294967295 - v.target_off) inst.op_length
          || ltb setup.target_size (v.target_off + inst.op_length)
        then (err flash_bounds, v)
        else (do
          produce_copy_or_zero hal sectors crypto_hal sector_size dec setup inst.opcode
              inst.op_length inst.op_offset
          give (ok lit_off))
            v
      else if inst.opcode == op_insert_lit
      then produce_insert hal sectors crypto_hal sector_size dec setup inst.op_length lit_off v
      else (err verify, v)

  -- The loop over the instructions, with its own guard on the rounds: `left` instructions of the
  -- stream, and 1000000 rounds at most.
  unfoldable pub run_loop : ℕ → ℕ → ℕ → ℕ → Action (Vm S D) (Unit {0})
  run_loop zero left off lit_off v = (err invalid_state, v)
  run_loop (suc rounds) left off lit_off v =
      let next : TdsInstr → Result (Unit {0}) × Vm S D = λ inst.
        continue (execute_instr inst lit_off v) (λ lit_off' v1.
          continue (flush_at_end v1)
            (λ _. run_loop rounds (left - 1) ((off + tds_instr_size) % 2 ^ 32) lit_off')) in
      let one : Result (Unit {0}) × Vm S D = elim (fetch hal v.hw setup off) [
        | ok inst ↦ if inst.opcode == op_eof then (ok tt, v) else next inst
        | err e ↦ (err e, v)
        | stuck ↦ (stuck, v)
      ] in
      if left == 0 then (err verify, v) else one

  -- What the end of the stream makes of the decoder's tail and of the last window.
  unfoldable pub finish_stream : Action (Vm S D) (Unit {0})
  finish_stream v =
      (do
        drain_decoder hal sectors crypto_hal sector_size dec setup
        emit_flush hal sectors crypto_hal sector_size setup true)
        (record v { decoder = dec.end_input v.decoder })

  -- The last test, and the final mark in the transaction.
  unfoldable pub resolve_target : Action (Vm S D) (Unit {0})
  resolve_target v =
      if v.target_off == setup.target_size
      then (ok tt, record v { txn = with_chunk_id v.txn v.target_off })
      else (err verify, v)

  -- The base image is verified on a fresh run; a resumed one moves its marks to the checkpoint.
  unfoldable pub start_at : List ℕ → ℕ → Action (Vm S D) (Unit {0})
  start_at fingerprint checkpoint v =
      if checkpoint == 0 then (verify_ghost_base hal crypto_hal v.hw setup fingerprint, v) else (
        walk_sectors sector_size checkpoint setup.dest_addr 0 checkpoint,
        record v {
          flushed_off = checkpoint;
          committed_off = checkpoint;
          checkpoint_off = checkpoint;
          erased_end = (setup.dest_addr + checkpoint) % 2 ^ 32;
        },
      )

  -- The run, from the header on.
  unfoldable pub run_stream : TdsHeader → Action (Vm S D) (Unit {0})
  run_stream hdr v =
      (do
        start_at hdr.base_fingerprint (resume_from v.txn setup.target_size)
        run_loop 1000000 hdr.instr_count tds_header_size hdr.literal_block_offset
        finish_stream
        resolve_target)
        v

-- The state before the first instruction.
abbrev pub blank_vm : {S D : Type 0} → Decoder D → Setup → Journal → S → List ℕ → Vm S D
blank_vm dec setup j s txn = record {
  hw = s;
  journal = j;
  txn = txn;
  decoder = dec.fresh_decoder;
  buf = [];
  target_off = 0;
  flushed_off = 0;
  committed_off = 0;
  checkpoint_off = 0;
  erased_end = setup.dest_addr;
}

-- The sizes that the header adds to the geometry.
abbrev pub sized : Setup → TdsHeader → Setup
sized geometry hdr = record geometry {
  source_size = hdr.base_size;
  target_size = hdr.expected_target_size;
}

-- The part of `boot_delta_apply` behind the layout of the arena.
unfoldable pub apply_stream :
    {S D : Type 0}
    → FlashHal S
    → List Sector
    → CryptoHal
    → (ℕ → Result ℕ)
    → Decoder D
    → Setup
    → ℕ
    → ℕ
    → Action (Vm S D) (Unit {0})
apply_stream hal sectors crypto_hal sector_size dec geometry dest_max base_max v =
    elim (hal.read v.hw geometry.delta_addr tds_header_size) [
      | ok bs ↦
          let checked = check_header geometry.delta_max_size dest_max base_max bs in
          let setup = sized geometry (tds_header_of bs) in
          if is_ok checked
          then run_stream hal sectors crypto_hal sector_size dec setup (tds_header_of bs) v
          else (err checked, v)
      | err e ↦ (err flash_hw, v)
      | stuck ↦ (stuck, v)
    ]

-- `boot_delta_apply`. `geometry` has the addresses and the limit of the stream; the capacities come
-- from the arena, and the sizes from the header.
unfoldable pub delta_apply :
    {S D : Type 0}
    → FlashHal S
    → List Sector
    → CryptoHal
    → (ℕ → Result ℕ)
    → Decoder D
    → Setup
    → ℕ
    → ℕ
    → ℕ
    → ℕ
    → Journal
    → S
    → List ℕ
    → Result (Unit {0}) × Vm S D
delta_apply hal sectors crypto_hal sector_size dec geometry dest_max base_max arena_len bytes j s
      txn =
    let v = blank_vm dec geometry j s txn in
    if ltb arena_len 1024
    then (err invalid_arg, v)
    else if ltb geometry.delta_max_size (tds_header_size + tds_instr_size)
    then (err verify, v)
    else elim (layout arena_len bytes dec.input_size) [
      | ok (read_cap, write_cap) ↦
          apply_stream hal sectors crypto_hal sector_size dec
            (record geometry { read_cap = read_cap; write_cap = write_cap }) dest_max base_max v
      | err e ↦ (err e, v)
      | stuck ↦ (stuck, v)
    ]
