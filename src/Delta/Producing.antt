-- ===== src/Delta/Producing.antt =====
-- The producers keep the offsets of the machine in order.
use toob_loader.Common.{ℕ, zero, suc, ◌+◌, ◌-◌, ◌%◌, ◌^◌, ◌≤◌, ◌<◌, ◌≡◌, arith, Bool, false}
use toob_loader.Common.{ltb, ◌==◌, List, length, some}
use toob_loader.Common.{
  Bool-cases, inl, inr, length-append, length-replicate, ltb→lt, ap, ◌∙◌, sym, subst, replicate,
}
use toob_loader.Status.{Result, ok, Result-cases}
use toob_loader.Hal.{FlashHal, CryptoHal, ReadsWhole}
use toob_loader.Journal.{Journal, Sector}
use toob_loader.Flow.{Ensures}
use toob_loader.Flow.{continue-Ensures, Ensures-mono}
use toob_loader.Delta.{Setup, Vm, Decoder, op_bzero}
use toob_loader.Delta.Confined.{IsConfined}
use toob_loader.Delta.Running.{IsRunning, Emitted, emit_flush-Runs}
use toob_loader.Delta.Produce.{
  put, flush_if_full, skip_step, source_bytes, round_step, produce_round, produce_loop, smaller,
}

-- The decoder gives no more than there is room for.
pub record PollsWithin {D : Type 0} (dec : Decoder D) : Type 0 where
  pub poll_fits :
      (d d' : D) (space : ℕ) (more : Bool) (bs : List ℕ)
      → dec.poll d space ≡ some (more, bs, d')
      → length bs ≤ space

module _ {S D : Type 0} (hal : FlashHal S) (sectors : List Sector) (crypto : CryptoHal)
    (sector_size : ℕ → Result ℕ) (setup : Setup) (P : Journal → S → Type 0) (limit : ℕ)
    (keeps : IsConfined hal sectors crypto P setup.dest_addr limit)
    (small : setup.target_size < 2 ^ 32)
    (room : setup.dest_addr + (setup.target_size + hal.write_align) ≤ limit) (dec : Decoder D)
    (reads : ReadsWhole hal) (polls : PollsWithin dec)
    (tiny : setup.target_size + setup.write_cap < 2 ^ 32) where
  -- The machine runs, and has put out `n` bytes more.
  abbrev pub Advanced : ℕ → Vm S D → Vm S D → Type 0
  Advanced n v v' =
      IsRunning hal sectors crypto sector_size setup P limit keeps small room v'
      × (v'.target_off ≡ v.target_off + n)

  abbrev pub Running : Vm S D → Type 0
  Running v = IsRunning hal sectors crypto sector_size setup P limit keeps small room v

  abbrev pub Broken : Vm S D → Type 0
  Broken v = P v.journal v.hw

  flush_if_full-Runs :
      (v w : Vm S D) (n : ℕ)
      → Advanced n w v
      → Ensures
          (λ _ v'. Advanced n w v')
          Broken
          (flush_if_full hal sectors crypto sector_size dec setup v)
  unfolding flush_if_full
  flush_if_full-Runs v w n h = elim (Bool-cases (length v.buf == setup.write_cap)) [
    | inl full ↦ rw full (
        Ensures-mono _ (λ _ v'. Advanced n w v') Broken _
          (emit_flush-Runs hal sectors crypto sector_size setup P limit keeps small room false v
            h.0)
          λ _ v' k. (k.0, k.2 ∙ h.1))
    | inr open_yet ↦ rw open_yet h
  ]

  pub put-Runs :
      (bs : List ℕ) (v : Vm S D)
      → Running v
      → v.target_off + length bs ≤ setup.target_size
      → Advanced (length bs) v (put hal sectors crypto sector_size dec setup bs v).1
  put-Runs bs v h fits =
      let len = length-append v.buf bs in
      (
        record {
          safe = h.safe;
          ahead = h.ahead;
          held = omega (arith, len, h.held, small, fits);
          close = omega (arith, len, h.close, small, fits);
          bounded = omega (arith, small, fits);
          written = h.written;
        },
        omega (arith, small, fits),
      )

  source_bytes-length :
      (opcode soff step : ℕ) (s : S) (bs : List ℕ)
      → source_bytes hal sectors crypto sector_size dec setup opcode soff step s ≡ ok bs
      → length bs ≡ step
  unfolding source_bytes
  source_bytes-length opcode soff step s bs e = elim (Bool-cases (opcode == op_bzero)) [
    | inl zeros ↦
        let made : replicate step 0 ≡ bs = ground (arith, zeros) in
        ap length (sym made) ∙ length-replicate step 0
    | inr copied ↦ elim (Result-cases (hal.read s ((setup.base_addr + soff) % 2 ^ 32) step)) [
      | inl (xs, r) ↦
          let got : xs ≡ bs = ground (arith, copied, r) in
          ap length (sym got) ∙ reads.read_whole s ((setup.base_addr + soff) % 2 ^ 32) step xs r
      | inr (inl (code, r)) ↦ absurd (ground (arith, copied, r))
      | inr (inr r) ↦ absurd (ground (arith, copied, r))
    ]
  ]

  round_step_bounds :
      (rem : ℕ) (v : Vm S D)
      → v.target_off + rem ≤ setup.target_size
      → (round_step hal sectors crypto sector_size dec setup rem v ≤ rem)
        × (v.target_off < v.flushed_off
            → v.target_off + round_step hal sectors crypto sector_size dec setup rem v
              ≤ v.flushed_off)
  unfolding round_step smaller
  round_step_bounds rem v fits = (ground arith, λ dry. ground arith)

  skip_step-Runs :
      (step : ℕ) (v : Vm S D)
      → Running v
      → v.target_off + step ≤ setup.target_size
      → v.target_off + step ≤ v.flushed_off
      → Ensures
          (λ _ v'. Advanced step v v')
          Broken
          (skip_step hal sectors crypto sector_size dec setup step v)
  unfolding skip_step
  skip_step-Runs step v h fits dry =
      continue-Ensures
        (λ _ v'. Emitted hal sectors crypto sector_size setup P limit keeps small room v v') Broken
        (λ _ v'. Advanced step v v') _ _
        (emit_flush-Runs hal sectors crypto sector_size setup P limit keeps small room false v h)
        λ _ v1 k. (
          record {
            safe = k.0.safe;
            ahead = k.0.ahead;
            held = omega (arith, ap length k.1);
            close = omega (arith, k.2, k.3, dry, small, fits);
            bounded = omega (arith, k.2, small, fits);
            written = k.0.written;
          },
          omega (arith, k.2, small, fits),
        )

  produce_round-Runs :
      (opcode soff step : ℕ) (v : Vm S D)
      → Running v
      → v.target_off + step ≤ setup.target_size
      → (v.target_off < v.flushed_off → v.target_off + step ≤ v.flushed_off)
      → Ensures
          (λ _ v'. Advanced step v v')
          Broken
          (produce_round hal sectors crypto sector_size dec setup opcode soff step v)
  unfolding produce_round
  produce_round-Runs opcode soff step v h fits dry =
      elim (Bool-cases (ltb v.target_off v.flushed_off)) [
        | inl again ↦ rw again (skip_step-Runs step v h fits (dry (ltb→lt _ _ again)))
        | inr new ↦
            elim (Result-cases
              (source_bytes hal sectors crypto sector_size dec setup opcode soff step v.hw)) [
                | inl (bs, r) ↦
                    let len = source_bytes-length opcode soff step v.hw bs r in
                    rw (new, r)
                      (flush_if_full-Runs _ v step (
                        subst
                          (λ n. Advanced n v (put hal sectors crypto sector_size dec setup bs v).1)
                          len (put-Runs bs v h (omega (arith, len, fits)))))
                | inr (inl (code, r)) ↦ rw (new, r) (h.safe)
                | inr (inr r) ↦ rw (new, r) (h.safe)
              ]
      ]

  pub produce_loop-Runs :
      (fuel opcode soff rem : ℕ) (v : Vm S D)
      → Running v
      → v.target_off + rem ≤ setup.target_size
      → Ensures
          (λ _ v'. Running v')
          Broken
          (produce_loop hal sectors crypto sector_size dec setup fuel opcode soff rem v)
  unfolding produce_loop
  produce_loop-Runs zero opcode soff rem v h fits = elim (Bool-cases (rem == 0)) [
    | inl none_left ↦ rw none_left h
    | inr left ↦ rw left (h.safe)
  ]
  produce_loop-Runs (suc fuel) opcode soff rem v h fits =
      let step = round_step hal sectors crypto sector_size dec setup rem v in
      let (short, dry) = round_step_bounds rem v fits in
      elim (Bool-cases (rem == 0)) [
        | inl none_left ↦ rw none_left h
        | inr left ↦ rw left (
            continue-Ensures (λ _ v'. Advanced step v v') Broken (λ _ v'. Running v') _ _
              (produce_round-Runs opcode soff step v h (omega (arith, fits, short)) dry)
              λ _ v1 k.
                produce_loop-Runs fuel opcode ((soff + step) % 2 ^ 32) (rem - step) v1 k.0
                  (omega (arith, k.1, fits, short)))
      ]
