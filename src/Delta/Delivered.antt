-- ===== src/Delta/Delivered.antt =====
-- `boot_delta_apply` as a whole: a target that is complete when it succeeds, and a flash that is
-- untouched outside the target whatever comes of it.
use toob_loader.Common.{ℕ, ◌+◌, ◌^◌, ◌≤◌, ◌<◌, ◌≡◌, refl, arith, Bool, false, not, ◌&&◌, ◌||◌}
use toob_loader.Common.{ltb, ◌==◌, List, [], take}
use toob_loader.Common.{Bool-cases, inl, inr, subst}
use toob_loader.Status.{ok_status, is_ok, is_ok→≡, Result, ok, err, stuck, Result-cases}
use toob_loader.Crc32
use toob_loader.Hal.{FlashHal, CryptoHal, ReadsWhole}
use toob_loader.Journal.{Journal, Sector}
use toob_loader.Flow.{Ensures, Ensures-mono}
use toob_loader.Delta.{
  Setup, Vm, Decoder, tds_header_of, tds_header_size, tds_instr_size, tds_magic,
}
use toob_loader.Delta.Confined.{IsConfined}
use toob_loader.Delta.Producing.{PollsWithin}
use toob_loader.Delta.Applied.{run_stream-Complete}
use toob_loader.Delta.Apply.{check_header, blank_vm, sized, apply_stream, delta_apply, layout}

sizes :
    (size dest_max : ℕ) (other : Bool)
    → (size == 0 || ltb dest_max size || other) ≡ false
    → (0 < size) × (size ≤ dest_max)
sizes size dest_max other h = ground arith

-- The target of a header that the checks accept is not empty and lies in the slot.
check_header_bounds :
    (delta_max dest_max base_max : ℕ) (bs : List ℕ)
    → check_header delta_max dest_max base_max bs ≡ ok_status
    → (0 < (tds_header_of bs).expected_target_size)
      × ((tds_header_of bs).expected_target_size ≤ dest_max)
unfolding check_header
check_header_bounds delta_max dest_max base_max bs h =
    let hdr = tds_header_of bs in
    elim (Bool-cases
      (not (hdr.tds_magic_field == tds_magic && Crc32.compute (take 28 bs) == hdr.header_crc32))) [
        | inl foreign ↦ absurd (cc (rw foreign at h))
        | inr known ↦
            elim (Bool-cases (
              hdr.expected_target_size == 0
              || ltb dest_max hdr.expected_target_size
              || ltb base_max hdr.base_size)) [
                | inl bad ↦ absurd (cc (rw (known, bad) at h))
                | inr good ↦
                    sizes hdr.expected_target_size dest_max (ltb base_max hdr.base_size) good
              ]
      ]

layout_bounds :
    (arena_len bytes input_size read_cap write_cap : ℕ)
    → layout arena_len bytes input_size ≡ ok (read_cap, write_cap)
    → write_cap ≤ arena_len
unfolding layout
layout_bounds arena_len bytes input_size read_cap write_cap h = ground arith

module _ {S D : Type 0} (hal : FlashHal S) (sectors : List Sector) (crypto : CryptoHal)
    (sector_size : ℕ → Result ℕ) (dec : Decoder D) (geometry : Setup) (dest_max base_max : ℕ)
    (P : Journal → S → Type 0)
    (keeps : IsConfined hal sectors crypto P geometry.dest_addr
      (geometry.dest_addr + (dest_max + hal.write_align)))
    (reads : ReadsWhole hal) (polls : PollsWithin dec)
    (low : geometry.dest_addr + dest_max < 2 ^ 32) where
  -- The whole target that the header at the start of the stream announces stands in flash.
  abbrev pub DeliveredFrom : Result (List ℕ) → Vm S D → Type 0
  DeliveredFrom header v =
      (bs : List ℕ) × (header ≡ ok bs)
      × (0 < (tds_header_of bs).expected_target_size)
      × ((tds_header_of bs).expected_target_size ≤ dest_max)
      × (v.target_off ≡ (tds_header_of bs).expected_target_size)
      × ((tds_header_of bs).expected_target_size ≤ v.flushed_off)
      × (v.buf ≡ [])

  abbrev pub Delivered : S → Vm S D → Type 0
  Delivered s v = DeliveredFrom (hal.read s geometry.delta_addr tds_header_size) v

  abbrev pub Holds : Result (Unit {0}) × Vm S D → Type 0
  Holds r = P r.1.journal r.1.hw

  abbrev Spoilt : Vm S D → Type 0
  Spoilt v = P v.journal v.hw

  apply_stream-delivers :
      (read_cap write_cap : ℕ) (j : Journal) (s : S) (txn : List ℕ)
      → dest_max + write_cap < 2 ^ 32
      → P j s
      → Ensures
          (λ _ v'. P v'.journal v'.hw × Delivered s v')
          Spoilt
          (apply_stream hal sectors crypto sector_size dec
            (record geometry { read_cap = read_cap; write_cap = write_cap })
            dest_max
            base_max
            (blank_vm dec geometry j s txn))
  unfolding apply_stream
  apply_stream-delivers read_cap write_cap j s txn tiny h =
      elim (Result-cases (hal.read s geometry.delta_addr tds_header_size)) [
        | inl (bs, r) ↦
            elim (Bool-cases (is_ok (check_header geometry.delta_max_size dest_max base_max bs))) [
              | inr bad ↦ rw (apply_stream, r, bad) h
              | inl good ↦
                  let (positive, fits) =
                    check_header_bounds geometry.delta_max_size dest_max base_max bs
                      (is_ok→≡ _ good) in
                  rw (apply_stream, r, good)
                    (Ensures-mono _ (λ _ v'. P v'.journal v'.hw × DeliveredFrom (ok bs) v') Spoilt _
                      (run_stream-Complete hal sectors crypto sector_size
                        (sized (record geometry { read_cap = read_cap; write_cap = write_cap })
                          (tds_header_of bs))
                        P (geometry.dest_addr + (dest_max + hal.write_align)) keeps
                        (omega (arith, fits, low)) (omega (arith, fits)) dec reads polls
                        (omega (arith, fits, tiny)) (tds_header_of bs) j s txn h
                        (omega (arith, fits, low)))
                      λ _ v' k. (k.0, (bs, refl, positive, fits, k.1, k.2, k.3)))
            ]
        | inr (inl (code, r)) ↦ rw (apply_stream, r) h
        | inr (inr r) ↦ rw (apply_stream, r) h
      ]

  delta_apply-delivers :
      (arena_len bytes : ℕ) (j : Journal) (s : S) (txn : List ℕ)
      → dest_max + arena_len < 2 ^ 32
      → P j s
      → Ensures
          (λ _ v'. P v'.journal v'.hw × Delivered s v')
          Spoilt
          (delta_apply hal sectors crypto sector_size dec geometry dest_max base_max arena_len bytes
            j s txn)
  unfolding delta_apply
  delta_apply-delivers arena_len bytes j s txn tiny h = elim (Bool-cases (ltb arena_len 1024)) [
    | inl small ↦ rw small h
    | inr large ↦
        elim (Bool-cases (ltb geometry.delta_max_size (tds_header_size + tds_instr_size))) [
          | inl short ↦ rw (large, short) h
          | inr long ↦ elim (Result-cases (layout arena_len bytes dec.input_size)) [
            | inl ((read_cap, write_cap), r) ↦
                rw (large, long, delta_apply, r)
                  (apply_stream-delivers read_cap write_cap j s txn
                    (omega (
                      arith,
                      tiny,
                      layout_bounds arena_len bytes dec.input_size read_cap write_cap r,
                    ))
                    h)
            | inr (inl (code, r)) ↦ rw (large, long, delta_apply, r) h
            | inr (inr r) ↦ rw (large, long, delta_apply, r) h
          ]
        ]
  ]

  state_of :
      (s : S) (r : Result (Unit {0}) × Vm S D)
      → Ensures (λ _ v'. P v'.journal v'.hw × Delivered s v') Spoilt r
      → Holds r
  state_of s (ok a, v) h = h.0
  state_of s (err e, v) h = h
  state_of s (stuck, v) h = h

  result_of :
      (s : S) (r : Result (Unit {0}) × Vm S D) (v : Vm S D)
      → Ensures (λ _ v'. P v'.journal v'.hw × Delivered s v') Spoilt r
      → r ≡ (ok tt, v)
      → Delivered s v
  result_of s r v h e =
      let k : Ensures (λ _ v'. P v'.journal v'.hw × Delivered s v') Spoilt (ok tt, v) =
        subst (λ q. Ensures (λ _ v'. P v'.journal v'.hw × Delivered s v') Spoilt q) e h in
      k.1

  -- Whatever comes of `boot_delta_apply`, it changes nothing outside the slot: what holds of the
  -- hardware before, and is kept by each write and erase from the start of the slot to its end with the
  -- last padding and by the journal's entries, holds afterwards. The driver reads as many bytes as it is
  -- asked for, the decoder gives no more than there is room for, and the slot with the arena fits into
  -- 32 bits.
  pub delta_apply-confined :
      (arena_len bytes : ℕ) (j : Journal) (s : S) (txn : List ℕ)
      → dest_max + arena_len < 2 ^ 32
      → P j s
      → Holds (
          delta_apply hal sectors crypto sector_size dec geometry dest_max base_max arena_len bytes
            j s txn)
  delta_apply-confined arena_len bytes j s txn tiny h =
      state_of s _ (delta_apply-delivers arena_len bytes j s txn tiny h)

  -- If `boot_delta_apply` succeeds, the header of the stream could be read, its target is not empty and
  -- fits into the slot, exactly its size has been put out, and all of that was flushed, under the
  -- conditions of the theorem above.
  pub delta_apply_complete :
      (arena_len bytes : ℕ) (j : Journal) (s : S) (txn : List ℕ) (v : Vm S D)
      → dest_max + arena_len < 2 ^ 32
      → P j s
      → delta_apply hal sectors crypto sector_size dec geometry dest_max base_max arena_len bytes j
          s txn
        ≡ (ok tt, v)
      → Delivered s v
  delta_apply_complete arena_len bytes j s txn v tiny h e =
      result_of s _ v (delta_apply-delivers arena_len bytes j s txn tiny h) e
