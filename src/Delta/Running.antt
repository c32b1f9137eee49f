-- ===== src/Delta/Running.antt =====
-- The offsets of the machine: what is put out stands in flash or in the write buffer.
use toob_loader.Common.{ℕ, ◌+◌, ◌-◌, ◌%◌, ◌^◌, ◌≤◌, ◌<◌, ◌≡◌, refl, arith, Bool, ◌&&◌}
use toob_loader.Common.{ltb, leb, ◌==◌, if◌then◌else◌, List, [], ◌++◌, length, drop, replicate}
use toob_loader.Common.{
  nil_of_length, Bool-cases, inl, inr, length-append, length-drop, length-replicate, ltb→lt, leb→le,
  leb_false→lt, ap, ==_iff, ltb_false→le,
}
use toob_loader.Status.{Result}
use toob_loader.Hal.{FlashHal, CryptoHal}
use toob_loader.Journal.{Journal, Sector}
use toob_loader.Flow.{Ensures}
use toob_loader.Flow.{Ensures-mono}
use toob_loader.Delta.{Setup, Vm}
use toob_loader.Delta.Flush.{pad_of, flush_bytes, emit_flush}
use toob_loader.Delta.Confined.{IsConfined, flush_bytes-keeps}

pad_of-le :
    {S : Type 0} (hal : FlashHal S) (pad_final : Bool) (len : ℕ)
    → pad_of hal pad_final len ≤ hal.write_align
unfolding pad_of
pad_of-le hal pad_final len = ground arith

module _ {S D : Type 0} (hal : FlashHal S) (sectors : List Sector) (crypto : CryptoHal)
    (sector_size : ℕ → Result ℕ) (setup : Setup) (P : Journal → S → Type 0) (limit : ℕ)
    (keeps : IsConfined hal sectors crypto P setup.dest_addr limit)
    (small : setup.target_size < 2 ^ 32)
    (room : setup.dest_addr + (setup.target_size + hal.write_align) ≤ limit) where
  -- The buffer ends where the output ends, and begins where flash ends or before. Nothing but the
  -- padding is written behind the target.
  pub record IsRunning (v : Vm S D) : Type 0 where
    pub safe : P v.journal v.hw
    pub ahead : setup.dest_addr ≤ v.erased_end
    pub held : length v.buf ≤ v.target_off
    pub close : v.target_off ≤ v.flushed_off + length v.buf
    pub bounded : v.target_off ≤ setup.target_size
    pub written : v.flushed_off ≤ setup.target_size + hal.write_align

  abbrev pub Crashed : Vm S D → Type 0
  Crashed v = P v.journal v.hw

  -- What `emit_flush` writes ends where the output ends, or behind its padding.
  abbrev rest_of : Vm S D → List ℕ
  rest_of v =
      let start = (v.target_off + 2 ^ 32 - length v.buf) % 2 ^ 32 in
      drop (if ltb start v.flushed_off then v.flushed_off - start else 0) v.buf

  length-rest_of :
      (v : Vm S D)
      → IsRunning v
      → v.flushed_off < v.target_off
      → v.flushed_off + length (rest_of v) ≡ v.target_off
  length-rest_of v h more =
      elim (Bool-cases (ltb ((v.target_off + 2 ^ 32 - length v.buf) % 2 ^ 32) v.flushed_off)) [
        | inl part ↦ rw part (
            omega (
              arith,
              h.held,
              h.close,
              h.bounded,
              small,
              ltb→lt _ _ part,
              length-drop (v.flushed_off - (v.target_off + 2 ^ 32 - length v.buf) % 2 ^ 32) v.buf,
            ))
        | inr whole ↦
            rw whole (omega (arith, h.held, h.close, h.bounded, small, ltb_false→le _ _ whole))
      ]

  abbrev pub Emitted : Vm S D → Vm S D → Type 0
  Emitted v v' =
      IsRunning v'
      × (v'.buf ≡ [])
      × (v'.target_off ≡ v.target_off)
      × (v.flushed_off ≤ v'.flushed_off)

  flush_rest :
      (pad : ℕ) (v : Vm S D)
      → IsRunning v
      → v.flushed_off < v.target_off
      → pad ≤ hal.write_align
      → Ensures
          (λ _ v'. Emitted v v')
          Crashed
          (flush_bytes hal sectors crypto sector_size setup
            (rest_of v ++ replicate pad hal.erased_value)
            v)
  flush_rest pad v h more short =
      let total = length-rest_of v h more in
      let len = length-append (rest_of v) (replicate pad hal.erased_value) in
      let tail = length-replicate pad hal.erased_value in
      Ensures-mono _ (λ _ v'. Emitted v v') Crashed _
        (flush_bytes-keeps hal sectors crypto sector_size setup P limit keeps
          (rest_of v ++ replicate pad hal.erased_value) v
          (omega (arith, total, len, tail, h.bounded, room, short)) (h.safe, h.ahead))
        λ _ v' k.
          let empty : length v'.buf ≡ 0 = ap length k.1.2 in
          (
            record {
              safe = k.0.0;
              ahead = k.0.1;
              held = omega (arith, empty);
              close = omega (arith, k.1.0, k.1.1, total, len, tail);
              bounded = omega (arith, k.1.0, h.bounded);
              written = omega (arith, k.1.1, total, len, tail, h.bounded, short);
            },
            k.1.2,
            k.1.0,
            omega (arith, k.1.1),
          )

  pub emit_flush-Runs :
      (pad_final : Bool) (v : Vm S D)
      → IsRunning v
      → Ensures
          (λ _ v'. Emitted v v')
          Crashed
          (emit_flush hal sectors crypto sector_size setup pad_final v)
  unfolding emit_flush
  emit_flush-Runs pad_final v h = elim (Bool-cases (length v.buf == 0)) [
    | inl empty ↦ rw empty (h, nil_of_length v.buf ((==_iff _ _).0 empty), refl, omega arith)
    | inr full ↦
        elim (Bool-cases (
          leb (((v.target_off + 2 ^ 32 - length v.buf) % 2 ^ 32 + length v.buf) % 2 ^ 32)
            v.flushed_off)) [
              | inl old ↦
                  rw (full, old)
                    (
                      record {
                        safe = h.safe;
                        ahead = h.ahead;
                        held = omega arith;
                        close = omega (arith, h.held, h.bounded, small, leb→le _ _ old);
                        bounded = h.bounded;
                        written = h.written;
                      },
                      refl,
                      refl,
                      omega arith,
                    )
              | inr fresh ↦
                  rw (full, fresh)
                    (let pad = pad_of hal pad_final (length (rest_of v)) in
                      elim (Bool-cases (
                        ltb 0 pad
                        && ltb setup.write_cap (
                            (if ltb ((v.target_off + 2 ^ 32 - length v.buf) % 2 ^ 32) v.flushed_off
                              then v.flushed_off - (v.target_off + 2 ^ 32 - length v.buf) % 2 ^ 32
                              else 0)
                            + length (rest_of v)
                            + pad))) [
                              | inl no_room ↦ rw no_room (h.safe)
                              | inr fits ↦ rw fits (
                                  flush_rest pad v h
                                    (omega
                                      (arith, h.held, h.bounded, small, leb_false→lt _ _ fresh))
                                    (pad_of-le hal pad_final (length (rest_of v))))
                            ])
            ]
  ]
