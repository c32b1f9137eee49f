-- ===== src/Delta/Flush.antt =====
-- The write combiner of boot_delta.c: erase ahead, write, read back, commit, checkpoint.
use toob_loader.Common.{ℕ, zero, suc, ◌+◌, ◌-◌, ◌%◌, ◌^◌, Bool, true, false, not, ◌&&◌}
use toob_loader.Common.{
  ltb, leb, ◌==◌, if◌then◌else◌, List, [], ◌++◌, length, take, drop, replicate,
}
use toob_loader.Status.{flash_hw, flash_bounds, is_ok, Result, ok, err, stuck}
use toob_loader.Hal.{FlashHal, CryptoHal}
use toob_loader.Journal.{Sector, same_bytes}
use toob_loader.Journal.Wire.{is_fully_erased, u32_bytes}
use toob_loader.Journal.Migrate.{patch}
use toob_loader.Journal.Append.{append}
use toob_loader.Flow.{Action, ◌>>=◌, ◌>>◌, continue, give, require, of_status}
use toob_loader.Delta.{Setup, Vm}

-- A step of at most `cap` bytes of the `len - off` that are left.
abbrev pub window : ℕ → ℕ → ℕ → ℕ
window len off cap = if ltb cap (len - off) then cap else len - off

-- `txn->delta_chunk_id = offset`
abbrev pub with_chunk_id : List ℕ → ℕ → List ℕ
with_chunk_id txn offset = patch txn 52 (u32_bytes offset)

module _ {S : Type 0} (hal : FlashHal S) where
  -- `region_is_erased`, in steps of 64 bytes
  unfoldable pub region_is_erased : ℕ → S → ℕ → ℕ → ℕ → Bool
  region_is_erased zero s addr len off = not (ltb off len)
  region_is_erased (suc fuel) s addr len off =
      let step = window len off 64 in
      let blank : Bool = elim (hal.read s ((addr + off) % 2 ^ 32) step) [
        | ok bs ↦ is_fully_erased bs hal.erased_value
        | err e ↦ false
        | stuck ↦ false
      ] in
      let later = region_is_erased fuel s addr len (off + step) in
      if ltb off len then blank && later else true

  -- `verify_readback`, in steps of 256 bytes
  unfoldable pub verify_readback : ℕ → S → ℕ → List ℕ → ℕ → Result (Unit {0})
  verify_readback zero s addr expect off = if ltb off (length expect) then stuck else ok tt
  verify_readback (suc fuel) s addr expect off =
      let step = window (length expect) off 256 in
      let same : Bool = elim (hal.read s ((addr + off) % 2 ^ 32) step) [
        | ok bs ↦ same_bytes bs (take step (drop off expect))
        | err e ↦ false
        | stuck ↦ false
      ] in
      let later = verify_readback fuel s addr expect (off + step) in
      if ltb off (length expect) then if same then later else err flash_hw else ok tt

  -- The bytes of the padding in front of the end of a final write.
  unfoldable pub pad_of : Bool → ℕ → ℕ
  pad_of pad_final len =
      if pad_final && ltb 0 hal.write_align && not (len % hal.write_align == 0)
      then hal.write_align - len % hal.write_align
      else 0

-- `get_sector_size`, where an error or no size at all is a fault of the hardware.
unfoldable pub size_at : (ℕ → Result ℕ) → ℕ → Result ℕ
size_at sector_size addr = elim (sector_size addr) [
  | ok size ↦ if size == 0 then err flash_hw else ok size
  | err e ↦ err flash_hw
  | stuck ↦ err flash_hw
]

module _ {S D : Type 0} (hal : FlashHal S) (sectors : List Sector) (crypto : CryptoHal)
    (sector_size : ℕ → Result ℕ) (setup : Setup) where
  -- A sector is erased unless it is blank.
  unfoldable pub erase_unless_blank : ℕ → Action (Vm S D) (Unit {0})
  erase_unless_blank size v =
      let (code, s) = hal.erase_sector v.hw v.erased_end in
      if region_is_erased hal size v.hw v.erased_end size 0
      then (ok tt, v)
      else (of_status code, record v { hw = s })

  -- `erased_end += sec`
  unfoldable pub move_erased_end : ℕ → Action (Vm S D) (Unit {0})
  move_erased_end size v =
      if ltb (4294967295 - v.erased_end) (size % 2 ^ 32)
      then (err flash_bounds, v)
      else (ok tt, record v { erased_end = v.erased_end + size % 2 ^ 32 })

  -- One round of `erase_ahead`.
  unfoldable pub erase_next : Action (Vm S D) (Unit {0})
  erase_next v =
      (do
        size ← give (size_at sector_size v.erased_end)
        erase_unless_blank size
        move_erased_end size)
        v

  -- `erase_ahead`. A round moves on by a byte at least.
  unfoldable pub erase_ahead : ℕ → ℕ → Action (Vm S D) (Unit {0})
  erase_ahead zero write_end v = if ltb v.erased_end write_end then (stuck, v) else (ok tt, v)
  erase_ahead (suc fuel) write_end v =
      let one = continue (erase_next v) (λ _. erase_ahead fuel write_end) in
      if ltb v.erased_end write_end then one else (ok tt, v)

  -- The loop that moves the commit mark over the sectors that are complete.
  unfoldable pub commit_loop : ℕ → Action (Vm S D) (Unit {0})
  commit_loop zero v = (stuck, v)
  commit_loop (suc fuel) v =
      elim (size_at sector_size ((setup.dest_addr + v.committed_off) % 2 ^ 32)) [
        | ok size ↦
            let next = (v.committed_off + size) % 2 ^ 32 in
            let later = commit_loop fuel (record v { committed_off = next }) in
            if ltb v.flushed_off next then (ok tt, v) else later
        | err e ↦ (err e, v)
        | stuck ↦ (stuck, v)
      ]

  -- The throttled checkpoint.
  unfoldable pub checkpoint : Action (Vm S D) (Unit {0})
  checkpoint v =
      let txn = with_chunk_id v.txn v.committed_off in
      let (code, j, s) = append hal sectors crypto.hash v.journal v.hw txn in
      let logged = record v { txn = txn; journal = j; hw = s } in
      if leb setup.max_sector ((v.committed_off + 2 ^ 32 - v.checkpoint_off) % 2 ^ 32)
      then if is_ok code
        then (ok tt, record logged { checkpoint_off = v.committed_off })
        else (err code, logged)
      else (ok tt, v)

  -- `write` at the end of what is flushed, with its read-back.
  unfoldable pub write_out : List ℕ → Action (Vm S D) (Unit {0})
  write_out bytes v =
      let dest = setup.dest_addr + v.flushed_off in
      let (code, s) = hal.write v.hw dest bytes in
      if is_ok code
      then (verify_readback hal (length bytes) s dest bytes 0, record v { hw = s })
      else (err flash_hw, record v { hw = s })

  abbrev pub flushed_by : ℕ → Action (Vm S D) (Unit {0})
  flushed_by n v = (ok tt, record v { flushed_off = v.flushed_off + n; buf = [] })

  -- `emit_flush` from the bounds of the write on.
  unfoldable pub flush_bytes : List ℕ → Action (Vm S D) (Unit {0})
  flush_bytes bytes v =
      let dest = setup.dest_addr + v.flushed_off in
      (do
        require (leb v.flushed_off (4294967295 - setup.dest_addr)) flash_bounds
        require (leb (length bytes) (4294967295 - dest)) flash_bounds
        erase_ahead (dest + length bytes) (dest + length bytes)
        write_out bytes
        flushed_by (length bytes)
        commit_loop (v.flushed_off + length bytes + 1)
        checkpoint)
        v

  -- `emit_flush`
  unfoldable pub emit_flush : Bool → Action (Vm S D) (Unit {0})
  emit_flush pad_final v =
      let start = (v.target_off + 2 ^ 32 - length v.buf) % 2 ^ 32 in
      let valid_off = if ltb start v.flushed_off then v.flushed_off - start else 0 in
      let bytes = drop valid_off v.buf in
      let pad = pad_of hal pad_final (length bytes) in
      if length v.buf == 0
      then (ok tt, v)
      else if leb ((start + length v.buf) % 2 ^ 32) v.flushed_off
      then (ok tt, record v { buf = [] })
      else if ltb 0 pad && ltb setup.write_cap (valid_off + length bytes + pad)
      then (err flash_bounds, v)
      else flush_bytes (bytes ++ replicate pad hal.erased_value) v
