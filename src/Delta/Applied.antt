-- ===== src/Delta/Applied.antt =====
-- What `boot_delta_apply` leaves behind: a target that is complete when it succeeds, and a flash that
-- is untouched outside the target whatever comes of it.
use toob_loader.Common.{ℕ, zero, suc, ◌+◌, ◌-◌, ◌%◌, ◌^◌, ◌≤◌, ◌<◌, ◌≡◌, arith, true, ◌&&◌, ◌||◌}
use toob_loader.Common.{ltb, ◌==◌, List, [], length}
use toob_loader.Common.{Bool-cases, inl, inr, ap, ==_iff}
use toob_loader.Status.{Result, Result-cases}
use toob_loader.Hal.{FlashHal, CryptoHal, ReadsWhole}
use toob_loader.Journal.{Journal, Sector}
use toob_loader.Journal.Intent
use toob_loader.Journal.Wire.{intent_of}
use toob_loader.Flow.{Ensures}
use toob_loader.Flow.{continue-Ensures, Ensures-mono, Ensures-state}
use toob_loader.Delta.{
  Setup, Vm, Decoder, TdsHeader, TdsInstr, op_copy_base, op_bzero, op_eof, op_insert_lit,
  tds_header_size, tds_instr_size,
}
use toob_loader.Delta.Confined.{IsConfined}
use toob_loader.Delta.Running.{emit_flush-Runs}
use toob_loader.Delta.Producing.{PollsWithin, produce_loop-Runs}
use toob_loader.Delta.Draining.{Runs, insert_loop-Runs, drain_loop-Runs}
use toob_loader.Delta.Produce.{produce_copy_or_zero, produce_insert, drain_decoder}
use toob_loader.Delta.Apply.{
  resume_from, fetch, flush_at_end, execute_instr, run_loop, finish_stream, resolve_target,
  start_at, run_stream, blank_vm,
}

module _ {S D : Type 0} (hal : FlashHal S) (sectors : List Sector) (crypto : CryptoHal)
    (sector_size : ℕ → Result ℕ) (setup : Setup) (P : Journal → S → Type 0) (limit : ℕ)
    (keeps : IsConfined hal sectors crypto P setup.dest_addr limit)
    (small : setup.target_size < 2 ^ 32)
    (room : setup.dest_addr + (setup.target_size + hal.write_align) ≤ limit) (dec : Decoder D)
    (reads : ReadsWhole hal) (polls : PollsWithin dec)
    (tiny : setup.target_size + setup.write_cap < 2 ^ 32) where
  abbrev pub Fine : Vm S D → Type 0
  Fine v = Runs hal sectors crypto sector_size setup P limit keeps small room dec reads polls tiny v

  abbrev pub Lost : Vm S D → Type 0
  Lost v = P v.journal v.hw

  flush_at_end-Runs :
      (v : Vm S D)
      → Fine v
      → Ensures (λ _ v'. Fine v') Lost (flush_at_end hal sectors crypto sector_size dec setup v)
  unfolding flush_at_end
  flush_at_end-Runs v h =
      elim (Bool-cases (v.target_off == setup.target_size && ltb 0 (length v.buf))) [
        | inl end ↦ rw end (
            Ensures-mono _ (λ _ v'. Fine v') Lost _
              (emit_flush-Runs hal sectors crypto sector_size setup P limit keeps small room true v
                h)
              λ _ v' k. k.0)
        | inr before ↦ rw before h
      ]

  execute_instr-Runs :
      (inst : TdsInstr) (lit_off : ℕ) (v : Vm S D)
      → Fine v
      → Ensures
          (λ _ v'. Fine v')
          Lost
          (execute_instr hal sectors crypto sector_size dec setup inst lit_off v)
  unfolding execute_instr produce_copy_or_zero produce_insert
  execute_instr-Runs inst lit_off v h =
      elim (Bool-cases (inst.opcode == op_copy_base || inst.opcode == op_bzero)) [
        | inl made ↦
            elim (Bool-cases (
              ltb (4294967295 - v.target_off) inst.op_length
              || ltb setup.target_size (v.target_off + inst.op_length))) [
                | inl too_long ↦ rw (made, too_long) (h.safe)
                | inr fits ↦
                    rw (made, fits)
                      (continue-Ensures (λ _ v'. Fine v') Lost (λ _ v'. Fine v') _ _
                        (produce_loop-Runs hal sectors crypto sector_size setup P limit keeps small
                          room dec reads polls tiny (inst.op_length + 1) inst.opcode inst.op_offset
                          inst.op_length v h (ground (arith, fits)))
                        λ _ v1 k. k)
              ]
        | inr other ↦ elim (Bool-cases (inst.opcode == op_insert_lit)) [
          | inl literal ↦
              rw (other, literal)
                (insert_loop-Runs hal sectors crypto sector_size setup P limit keeps small room dec
                  reads polls tiny inst.op_length lit_off inst.op_length v h)
          | inr unknown ↦ rw (other, unknown) (h.safe)
        ]
      ]

  run_loop-Runs :
      (rounds left off lit_off : ℕ) (v : Vm S D)
      → Fine v
      → Ensures
          (λ _ v'. Fine v')
          Lost
          (run_loop hal sectors crypto sector_size dec setup rounds left off lit_off v)
  unfolding run_loop
  run_loop-Runs zero left off lit_off v h = h.safe
  run_loop-Runs (suc rounds) left off lit_off v h = elim (Bool-cases (left == 0)) [
    | inl no_more ↦ rw no_more (h.safe)
    | inr more ↦ elim (Result-cases (fetch hal v.hw setup off)) [
      | inl (inst, r) ↦ elim (Bool-cases (inst.opcode == op_eof)) [
        | inl end ↦ rw (more, run_loop, r, end) h
        | inr go_on ↦
            rw (more, run_loop, r, go_on)
              (continue-Ensures (λ _ v'. Fine v') Lost (λ _ v'. Fine v') _ _
                (execute_instr-Runs inst lit_off v h)
                λ lit_off' v1 h1.
                  continue-Ensures (λ _ v'. Fine v') Lost (λ _ v'. Fine v') _ _
                    (flush_at_end-Runs v1 h1)
                    λ _ v2 h2.
                      run_loop-Runs rounds (left - 1) ((off + tds_instr_size) % 2 ^ 32) lit_off' v2
                        h2)
      ]
      | inr (inl (code, r)) ↦ rw (more, run_loop, r) (h.safe)
      | inr (inr r) ↦ rw (more, run_loop, r) (h.safe)
    ]
  ]

  -- The whole target stands in flash, and the transaction says so.
  abbrev pub Complete : Vm S D → Type 0
  Complete v =
      P v.journal v.hw
      × (v.target_off ≡ setup.target_size)
      × (setup.target_size ≤ v.flushed_off)
      × (v.buf ≡ [])

  abbrev Flushed : Vm S D → Type 0
  Flushed v = Fine v × (v.buf ≡ [])

  resolve_target-Complete :
      (v : Vm S D)
      → Flushed v
      → Ensures
          (λ _ v'. Complete v')
          Lost
          (resolve_target hal sectors crypto sector_size dec setup v)
  unfolding resolve_target
  resolve_target-Complete v h = elim (Bool-cases (v.target_off == setup.target_size)) [
    | inl whole ↦
        let all = (==_iff v.target_off setup.target_size).0 whole in
        rw whole (h.0.safe, all, omega (arith, h.0.close, ap length h.1, all), h.1)
    | inr part ↦ rw part (h.0.safe)
  ]

  start_at-Runs :
      (fingerprint : List ℕ) (at_off : ℕ) (j : Journal) (s : S) (txn : List ℕ)
      → P j s
      → at_off ≤ setup.target_size
      → setup.dest_addr + setup.target_size < 2 ^ 32
      → Ensures
          (λ _ v'. Fine v')
          Lost
          (start_at hal sectors crypto sector_size dec setup fingerprint at_off
            (blank_vm dec setup j s txn))
  unfolding start_at
  start_at-Runs fingerprint at_off j s txn h fits low = elim (Bool-cases (at_off == 0)) [
    | inl fresh ↦ rw fresh (
        Ensures-state Fine Lost _ _
          (record {
            safe = h;
            ahead = omega arith;
            held = omega arith;
            close = omega arith;
            bounded = omega arith;
            written = omega arith;
          })
          h)
    | inr resumed ↦ rw resumed (
        Ensures-state Fine Lost _ _
          (record {
            safe = h;
            ahead = omega (arith, fits, low);
            held = omega arith;
            close = omega arith;
            bounded = omega arith;
            written = omega (arith, fits);
          })
          h)
  ]

  resume_from-le : (txn : List ℕ) → resume_from txn setup.target_size ≤ setup.target_size
  unfolding resume_from
  resume_from-le txn =
      elim (Bool-cases
        (intent_of txn == Intent.update_pending || intent_of txn == Intent.txn_rollback_pending)) [
          | inl resumed ↦ rw resumed (omega arith)
          | inr fresh ↦ rw fresh (omega arith)
        ]

  pub run_stream-Complete :
      (hdr : TdsHeader) (j : Journal) (s : S) (txn : List ℕ)
      → P j s
      → setup.dest_addr + setup.target_size < 2 ^ 32
      → Ensures
          (λ _ v'. Complete v')
          Lost
          (run_stream hal sectors crypto sector_size dec setup hdr (blank_vm dec setup j s txn))
  unfolding run_stream finish_stream drain_decoder
  run_stream-Complete hdr j s txn h low =
      continue-Ensures (λ _ v'. Fine v') Lost (λ _ v'. Complete v') _ _
        (start_at-Runs hdr.base_fingerprint (resume_from txn setup.target_size) j s txn h
          (resume_from-le txn) low)
        λ _ v1 h1.
          continue-Ensures (λ _ v'. Fine v') Lost (λ _ v'. Complete v') _ _
            (run_loop-Runs 1000000 hdr.instr_count tds_header_size hdr.literal_block_offset v1 h1)
            λ _ v2 h2.
              continue-Ensures (λ _ v'. Flushed v') Lost (λ _ v'. Complete v') _ _
                (continue-Ensures (λ _ v'. Fine v') Lost (λ _ v'. Flushed v') _ _
                  (drain_loop-Runs hal sectors crypto sector_size setup P limit keeps small room dec
                    reads polls tiny (setup.target_size + 2)
                    (record v2 { decoder = dec.end_input v2.decoder })
                    (record {
                      safe = h2.safe;
                      ahead = h2.ahead;
                      held = h2.held;
                      close = h2.close;
                      bounded = h2.bounded;
                      written = h2.written;
                    }))
                  λ _ v3 h3.
                    Ensures-mono _ (λ _ v'. Flushed v') Lost _
                      (emit_flush-Runs hal sectors crypto sector_size setup P limit keeps small room
                        true v3 h3)
                      λ _ v' k. (k.0, k.1))
                λ _ v4 h4. resolve_target-Complete v4 h4
