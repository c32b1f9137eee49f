-- ===== src/Delta/Draining.antt =====
-- What comes out of the decoder keeps the offsets of the machine in order.
use toob_loader.Common.{ℕ, zero, suc, ◌+◌, ◌-◌, ◌%◌, ◌^◌, ◌≤◌, ◌<◌, ◌≡◌, arith, true, false}
use toob_loader.Common.{ltb, ◌==◌, List, length, Option-cases}
use toob_loader.Common.{Bool-cases, inl, inr, ltb_false→le}
use toob_loader.Status.{Result, ok, Result-cases}
use toob_loader.Hal.{FlashHal, CryptoHal, ReadsWhole}
use toob_loader.Journal.{Journal, Sector}
use toob_loader.Flow.{Ensures}
use toob_loader.Flow.{continue-Ensures, Ensures-mono}
use toob_loader.Delta.{Setup, Vm, Decoder}
use toob_loader.Delta.Confined.{IsConfined}
use toob_loader.Delta.Running.{emit_flush-Runs}
use toob_loader.Delta.Producing.{PollsWithin, Running, put-Runs}
use toob_loader.Delta.Produce.{
  put, make_room, poll_once, drain_loop, drain_decoder, literal_bytes, sink_bytes, insert_loop,
  smaller,
}

module _ {S D : Type 0} (hal : FlashHal S) (sectors : List Sector) (crypto : CryptoHal)
    (sector_size : ℕ → Result ℕ) (setup : Setup) (P : Journal → S → Type 0) (limit : ℕ)
    (keeps : IsConfined hal sectors crypto P setup.dest_addr limit)
    (small : setup.target_size < 2 ^ 32)
    (room : setup.dest_addr + (setup.target_size + hal.write_align) ≤ limit) (dec : Decoder D)
    (reads : ReadsWhole hal) (polls : PollsWithin dec)
    (tiny : setup.target_size + setup.write_cap < 2 ^ 32) where
  abbrev pub Runs : Vm S D → Type 0
  Runs v =
      Running hal sectors crypto sector_size setup P limit keeps small room dec reads polls tiny v

  abbrev pub Broke : Vm S D → Type 0
  Broke v = P v.journal v.hw

  make_room-Runs :
      (v : Vm S D)
      → Runs v
      → Ensures (λ _ v'. Runs v') Broke (make_room hal sectors crypto sector_size dec setup v)
  unfolding make_room
  make_room-Runs v h = elim (Bool-cases (setup.write_cap - length v.buf == 0)) [
    | inl full ↦ rw full (
        Ensures-mono _ (λ _ v'. Runs v') Broke _
          (emit_flush-Runs hal sectors crypto sector_size setup P limit keeps small room false v h)
          λ _ v' k. k.0)
    | inr space ↦ rw space h
  ]

  -- The bytes that a poll gave, where they do not exceed the target.
  polled :
      (bs : List ℕ) (d : D) (v : Vm S D)
      → Runs v
      → length bs ≤ setup.write_cap
      → ltb setup.target_size ((v.target_off + length bs) % 2 ^ 32) ≡ false
      → Runs (put hal sectors crypto sector_size dec setup bs (record v { decoder = d })).1
  polled bs d v h fits within =
      (put-Runs hal sectors crypto sector_size setup P limit keeps small room dec reads polls tiny
        bs (record v { decoder = d })
        (record {
          safe = h.safe;
          ahead = h.ahead;
          held = h.held;
          close = h.close;
          bounded = h.bounded;
          written = h.written;
        })
        (omega (arith, ltb_false→le _ _ within, h.bounded, fits, tiny))).0

  poll_once-Runs :
      (v : Vm S D)
      → Runs v
      → Ensures (λ _ v'. Runs v') Broke (poll_once hal sectors crypto sector_size dec setup v)
  unfolding poll_once
  poll_once-Runs v h = elim (Option-cases (dec.poll v.decoder (setup.write_cap - length v.buf))) [
    | inl e ↦ rw (poll_once, e) (h.safe)
    | inr ((more, bs, d), e) ↦
        let fits = polls.poll_fits v.decoder d (setup.write_cap - length v.buf) more bs e in
        elim (Bool-cases (ltb setup.target_size ((v.target_off + length bs) % 2 ^ 32))) [
          | inl bomb ↦ rw (poll_once, e, bomb) (h.safe)
          | inr within ↦ rw (poll_once, e, within) (polled bs d v h (omega (arith, fits)) within)
        ]
  ]

  pub drain_loop-Runs :
      (fuel : ℕ) (v : Vm S D)
      → Runs v
      → Ensures (λ _ v'. Runs v') Broke (drain_loop hal sectors crypto sector_size dec setup fuel v)
  unfolding drain_loop
  drain_loop-Runs zero v h = h.safe
  drain_loop-Runs (suc fuel) v h =
      continue-Ensures (λ _ v'. Runs v') Broke (λ _ v'. Runs v') _ _ (make_room-Runs v h)
        λ _ v1 h1.
          continue-Ensures (λ _ v'. Runs v') Broke (λ _ v'. Runs v') _ _ (poll_once-Runs v1 h1)
            λ more v2 h2.
              elim more
                as (λ m.
                  Ensures {A = Unit {0}} (λ _ v'. Runs v') Broke
                    (elim m [
                      | true ↦ drain_loop hal sectors crypto sector_size dec setup fuel v2
                      | false ↦ (ok tt, v2)
                    ])) [ true ↦ drain_loop-Runs fuel v2 h2 | false ↦ h2 ]

  sink_bytes-Runs :
      (bs : List ℕ) (v : Vm S D)
      → Runs v
      → Ensures (λ _ v'. Runs v') Broke (sink_bytes hal sectors crypto sector_size dec setup bs v)
  unfolding sink_bytes
  sink_bytes-Runs bs v h = elim (Option-cases (dec.sink v.decoder bs)) [
    | inl e ↦ rw (sink_bytes, e) (h.safe)
    | inr ((sunk, d), e) ↦ elim (Bool-cases (sunk == 0)) [
      | inl nothing ↦ rw (sink_bytes, e, nothing) (h.safe)
      | inr some_bytes ↦
          rw (sink_bytes, e, some_bytes)
            (record {
              safe = h.safe;
              ahead = h.ahead;
              held = h.held;
              close = h.close;
              bounded = h.bounded;
              written = h.written;
            })
    ]
  ]

  pub insert_loop-Runs :
      (fuel lit_off rem : ℕ) (v : Vm S D)
      → Runs v
      → Ensures
          (λ _ v'. Runs v')
          Broke
          (insert_loop hal sectors crypto sector_size dec setup fuel lit_off rem v)
  unfolding insert_loop drain_decoder
  insert_loop-Runs zero lit_off rem v h = elim (Bool-cases (rem == 0)) [
    | inl none_left ↦ rw none_left h
    | inr left ↦ rw left (h.safe)
  ]
  insert_loop-Runs (suc fuel) lit_off rem v h =
      let chunk = smaller (smaller rem dec.input_size) setup.read_cap in
      elim (Bool-cases (rem == 0)) [
        | inl none_left ↦ rw none_left h
        | inr left ↦
            elim (Result-cases
              (literal_bytes hal sectors crypto sector_size dec setup lit_off chunk v.hw)) [
                | inl (bs, r) ↦
                    rw (left, r)
                      (continue-Ensures (λ _ v'. Runs v') Broke (λ _ v'. Runs v') _ _
                        (sink_bytes-Runs bs v h)
                        λ sunk v1 h1.
                          continue-Ensures (λ _ v'. Runs v') Broke (λ _ v'. Runs v') _ _
                            (drain_loop-Runs (setup.target_size + 2) v1 h1)
                            λ _ v2 h2.
                              insert_loop-Runs fuel ((lit_off + sunk) % 2 ^ 32)
                                ((rem + 2 ^ 32 - sunk % 2 ^ 32) % 2 ^ 32) v2 h2)
                | inr (inl (code, r)) ↦ rw (left, r) (h.safe)
                | inr (inr r) ↦ rw (left, r) (h.safe)
              ]
      ]
