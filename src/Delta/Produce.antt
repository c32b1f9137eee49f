-- ===== src/Delta/Produce.antt =====
-- The producers of boot_delta.c: what a single instruction puts into the write buffer.
use toob_loader.Common.{ℕ, zero, suc, ◌+◌, ◌-◌, ◌%◌, ◌^◌, Bool, true, false, ◌||◌}
use toob_loader.Common.{ltb, ◌==◌, if◌then◌else◌, List, ◌++◌, length, replicate, none, some}
use toob_loader.Status.{flash_hw, flash_bounds, verify, invalid_state, Result, ok, err, stuck}
use toob_loader.Hal.{FlashHal, CryptoHal}
use toob_loader.Journal.{Sector}
use toob_loader.Flow.{Action, ◌>>=◌, ◌>>◌, continue, give}
use toob_loader.Delta.{Setup, Vm, Decoder, op_bzero}
use toob_loader.Delta.Flush.{emit_flush}

-- `(rem < space) ? rem : space`
unfoldable pub smaller : ℕ → ℕ → ℕ
smaller a b = if ltb a b then a else b

module _ {S D : Type 0} (hal : FlashHal S) (sectors : List Sector) (crypto : CryptoHal)
    (sector_size : ℕ → Result ℕ) (dec : Decoder D) (setup : Setup) where
  abbrev flush : Bool → Action (Vm S D) (Unit {0})
  flush pad_final = emit_flush hal sectors crypto sector_size setup pad_final

  -- The bytes go behind those of the buffer.
  abbrev pub put : List ℕ → Action (Vm S D) (Unit {0})
  put bytes v = (
    ok tt,
    record v { buf = v.buf ++ bytes; target_off = (v.target_off + length bytes) % 2 ^ 32 },
  )

  -- A full buffer is flushed.
  unfoldable pub flush_if_full : Action (Vm S D) (Unit {0})
  flush_if_full v = if length v.buf == setup.write_cap then flush false v else (ok tt, v)

  -- Output that is in flash already is skipped, once the buffer is empty.
  unfoldable pub skip_step : ℕ → Action (Vm S D) (Unit {0})
  skip_step step = do
    flush false
    λ v. (ok tt, record v { target_off = (v.target_off + step) % 2 ^ 32 })

  -- The bytes that `COPY_BASE` or `BZERO` puts out at `done` bytes of its length.
  unfoldable pub source_bytes : ℕ → ℕ → ℕ → S → Result (List ℕ)
  source_bytes opcode soff step s =
      if opcode == op_bzero
      then ok (replicate step 0)
      else if ltb (4294967295 - soff) step || ltb setup.source_size ((soff + step) % 2 ^ 32)
      then err flash_bounds
      else elim (hal.read s ((setup.base_addr + soff) % 2 ^ 32) step) [
        | ok bs ↦ ok bs
        | err e ↦ err flash_hw
        | stuck ↦ stuck
      ]

  -- How far one round of `produce_copy_or_zero` comes.
  unfoldable pub round_step : ℕ → Vm S D → ℕ
  round_step rem v =
      if ltb v.target_off v.flushed_off
      then if ltb v.flushed_off ((v.target_off + rem) % 2 ^ 32)
        then v.flushed_off - v.target_off
        else rem
      else smaller rem (setup.write_cap - length v.buf)

  -- One round of `produce_copy_or_zero`.
  unfoldable pub produce_round : ℕ → ℕ → ℕ → Action (Vm S D) (Unit {0})
  produce_round opcode soff step v =
      if ltb v.target_off v.flushed_off
      then skip_step step v
      else (do bs ← give (source_bytes opcode soff step v.hw); put bs; flush_if_full) v

  -- `produce_copy_or_zero`. A round that starts with a full buffer empties it, each other one makes a
  -- byte at least.
  unfoldable pub produce_loop : ℕ → ℕ → ℕ → ℕ → Action (Vm S D) (Unit {0})
  produce_loop zero opcode soff rem v = if rem == 0 then (ok tt, v) else (stuck, v)
  produce_loop (suc fuel) opcode soff rem v =
      let step = round_step rem v in
      let one =
        continue (produce_round opcode soff step v)
          (λ _. produce_loop fuel opcode ((soff + step) % 2 ^ 32) (rem - step)) in
      if rem == 0 then (ok tt, v) else one

  unfoldable pub produce_copy_or_zero : ℕ → ℕ → ℕ → Action (Vm S D) (Unit {0})
  produce_copy_or_zero opcode len src_off = produce_loop (len + 1) opcode src_off len

  -- `drain_decoder` makes room where there is none,
  unfoldable pub make_room : Action (Vm S D) (Unit {0})
  make_room v = if setup.write_cap - length v.buf == 0 then flush false v else (ok tt, v)

  -- takes what the decoder gives, with the bound against a literal that is too long,
  unfoldable pub poll_once : Action (Vm S D) Bool
  poll_once v = elim (dec.poll v.decoder (setup.write_cap - length v.buf)) [
    | none ↦ (err verify, v)
    | some (more, bs, d) ↦
        let (_, v') = put bs (record v { decoder = d }) in
        if ltb setup.target_size v'.target_off then (err invalid_state, v') else (ok more, v')
  ]

  -- and goes on while there may be more.
  unfoldable pub drain_loop : ℕ → Action (Vm S D) (Unit {0})
  drain_loop zero v = (stuck, v)
  drain_loop (suc fuel) v = continue (make_room v) (λ _ v1.
      continue (poll_once v1)
        (λ more v2. elim more [ true ↦ drain_loop fuel v2 | false ↦ (ok tt, v2) ]))

  -- `drain_decoder`. A decoder that has more to give fills the room it is given.
  unfoldable pub drain_decoder : Action (Vm S D) (Unit {0})
  drain_decoder v = drain_loop (setup.target_size + 2) v

  -- The next bytes of the literals.
  unfoldable pub literal_bytes : ℕ → ℕ → S → Result (List ℕ)
  literal_bytes lit_off chunk s =
      if ltb (4294967295 - lit_off) chunk || ltb (setup.delta_max_size % 2 ^ 32) (lit_off + chunk)
      then err flash_bounds
      else elim (hal.read s ((setup.delta_addr + lit_off) % 2 ^ 32) chunk) [
        | ok bs ↦ ok bs
        | err e ↦ err flash_hw
        | stuck ↦ stuck
      ]

  -- `heatshrink_decoder_sink`, with its errors
  unfoldable pub sink_bytes : List ℕ → Action (Vm S D) ℕ
  sink_bytes bs v = elim (dec.sink v.decoder bs) [
    | none ↦ (err verify, v)
    | some (sunk, d) ↦
        if sunk == 0
        then (err invalid_state, record v { decoder = d })
        else (ok sunk, record v { decoder = d })
  ]

  -- `produce_insert`, which returns `lit_read_off`. A round takes a byte of the literals at least.
  unfoldable pub insert_loop : ℕ → ℕ → ℕ → Action (Vm S D) ℕ
  insert_loop zero lit_off rem v = if rem == 0 then (ok lit_off, v) else (stuck, v)
  insert_loop (suc fuel) lit_off rem v =
      let chunk = smaller (smaller rem dec.input_size) setup.read_cap in
      let one =
        (do
          bs ← give (literal_bytes lit_off chunk v.hw)
          sunk ← sink_bytes bs
          drain_decoder
          insert_loop fuel ((lit_off + sunk) % 2 ^ 32) ((rem + 2 ^ 32 - sunk % 2 ^ 32) % 2 ^ 32))
          v in
      if rem == 0 then (ok lit_off, v) else one

  unfoldable pub produce_insert : ℕ → ℕ → Action (Vm S D) ℕ
  produce_insert len lit_off = insert_loop len lit_off len
