-- ===== src/Delta/Confined.antt =====
-- Where the machine writes: the invariant of its offsets, with what holds of a flash outside the target.
use toob_loader.Common.{ℕ, zero, suc, ◌+◌, ◌-◌, ◌%◌, ◌^◌, ◌≤◌, ◌<◌, ◌≡◌, refl, arith}
use toob_loader.Common.{ltb, leb, List, [], length}
use toob_loader.Common.{◌∙◌, ap, Bool-cases, inl, inr, ltb→lt}
use toob_loader.Status.{is_ok, Result, Result-cases}
use toob_loader.Hal.{FlashHal, CryptoHal}
use toob_loader.Journal.{Journal, Sector}
use toob_loader.Journal.Append.{append}
use toob_loader.Flow.{Ensures}
use toob_loader.Flow.{Ensures-state, continue-Ensures}
use toob_loader.Delta.{Setup, Vm}
use toob_loader.Delta.Flush.{
  size_at, erase_unless_blank, move_erased_end, erase_next, erase_ahead, commit_loop, checkpoint,
  write_out, flush_bytes, with_chunk_id,
}

-- `P` holds of the hardware whatever is written or erased from `dest` to `limit`, and whatever the
-- journal appends.
pub record IsConfined {S : Type 0} (hal : FlashHal S) (sectors : List Sector) (crypto : CryptoHal)
    (P : Journal → S → Type 0) (dest limit : ℕ) : Type 0 where
  pub write_keeps :
      (j : Journal) (s : S) (a : ℕ) (bs : List ℕ)
      → dest ≤ a
      → a + length bs ≤ limit
      → P j s
      → P j (hal.write s a bs).1
  pub erase_keeps :
      (j : Journal) (s : S) (a : ℕ) → dest ≤ a → a < limit → P j s → P j (hal.erase_sector s a).1
  pub append_keeps :
      (j : Journal) (s : S) (entry : List ℕ)
      → P j s
      → P (append hal sectors crypto.hash j s entry).1 (append hal sectors crypto.hash j s entry).2

module _ {S D : Type 0} (hal : FlashHal S) (sectors : List Sector) (crypto : CryptoHal)
    (sector_size : ℕ → Result ℕ) (setup : Setup) (P : Journal → S → Type 0) (limit : ℕ)
    (keeps : IsConfined hal sectors crypto P setup.dest_addr limit) where
  -- The hardware is as `P` says, and erased sectors begin behind the start of the target.
  abbrev pub Kept : Vm S D → Type 0
  Kept v = P v.journal v.hw × (setup.dest_addr ≤ v.erased_end)

  abbrev pub Failed : Vm S D → Type 0
  Failed v = P v.journal v.hw

  -- The output has not changed.
  abbrev pub SameOutput : Vm S D → Vm S D → Type 0
  SameOutput v v' =
      (v'.target_off ≡ v.target_off) × (v'.flushed_off ≡ v.flushed_off) × (v'.buf ≡ v.buf)

  erase_unless_blank-keeps :
      (size : ℕ) (v : Vm S D)
      → v.erased_end < limit
      → Kept v
      → Ensures
          (λ _ v'. Kept v' × (v'.erased_end ≡ v.erased_end) × SameOutput v v')
          Failed
          (erase_unless_blank hal sectors crypto sector_size setup size v)
  unfolding erase_unless_blank
  erase_unless_blank-keeps size v below h =
      ground (arith, keeps.erase_keeps v.journal v.hw v.erased_end)

  move_erased_end-keeps :
      (size : ℕ) (v w : Vm S D)
      → Kept v
      → SameOutput w v
      → Ensures
          (λ _ v'. Kept v' × SameOutput w v')
          Failed
          (move_erased_end hal sectors crypto sector_size setup size v)
  unfolding move_erased_end
  move_erased_end-keeps size v w h same = ground arith

  erase_next-keeps :
      (v : Vm S D)
      → v.erased_end < limit
      → Kept v
      → Ensures
          (λ _ v'. Kept v' × SameOutput v v')
          Failed
          (erase_next hal sectors crypto sector_size setup v)
  unfolding erase_next
  erase_next-keeps v below h = elim (Result-cases (size_at sector_size v.erased_end)) [
    | inl (size, e) ↦ rw e (
        continue-Ensures (λ _ v'. Kept v' × (v'.erased_end ≡ v.erased_end) × SameOutput v v') Failed
          (λ _ v'. Kept v' × SameOutput v v') _ _ (erase_unless_blank-keeps size v below h)
          λ _ v1 k. move_erased_end-keeps size v1 v k.0 k.2)
    | inr (inl (code, e)) ↦ rw e (h.0)
    | inr (inr e) ↦ rw e (h.0)
  ]

  erase_ahead-keeps :
      (fuel write_end : ℕ) (v w : Vm S D)
      → write_end ≤ limit
      → Kept v
      → SameOutput w v
      → Ensures
          (λ _ v'. Kept v' × SameOutput w v')
          Failed
          (erase_ahead hal sectors crypto sector_size setup fuel write_end v)
  unfolding erase_ahead
  erase_ahead-keeps zero write_end v w fits h same = ground arith
  erase_ahead-keeps (suc fuel) write_end v w fits h same =
      elim (Bool-cases (ltb v.erased_end write_end)) [
        | inl more ↦ rw more (
            continue-Ensures (λ _ v'. Kept v' × SameOutput v v') Failed
              (λ _ v'. Kept v' × SameOutput w v') _ _
              (erase_next-keeps v (omega (arith, ltb→lt v.erased_end write_end more)) h)
              λ _ v1 k.
                erase_ahead-keeps fuel write_end v1 w fits k.0
                  (k.1.0 ∙ same.0, k.1.1 ∙ same.1, k.1.2 ∙ same.2))
        | inr no_more ↦ rw no_more (h, same)
      ]

  write_out-keeps :
      (bytes : List ℕ) (v w : Vm S D)
      → setup.dest_addr + v.flushed_off + length bytes ≤ limit
      → Kept v
      → SameOutput w v
      → Ensures
          (λ _ v'. Kept v' × SameOutput w v')
          Failed
          (write_out hal sectors crypto sector_size setup bytes v)
  unfolding write_out
  write_out-keeps bytes v w fits h same =
      let kept =
        keeps.write_keeps v.journal v.hw (setup.dest_addr + v.flushed_off) bytes (omega arith) fits
          h.0 in
      elim (Bool-cases (is_ok (hal.write v.hw (setup.dest_addr + v.flushed_off) bytes).0)) [
        | inl good ↦
            rw good
              (Ensures-state (λ v'. Kept v' × SameOutput w v') Failed _ _ ((kept, h.1), same) kept)
        | inr bad ↦ rw bad kept
      ]

  commit_loop-keeps :
      (fuel : ℕ) (v w : Vm S D)
      → Kept v
      → SameOutput w v
      → Ensures
          (λ _ v'. Kept v' × SameOutput w v')
          Failed
          (commit_loop hal sectors crypto sector_size setup fuel v)
  unfolding commit_loop
  commit_loop-keeps zero v w h same = h.0
  commit_loop-keeps (suc fuel) v w h same =
      let next = λ (size : ℕ).
        commit_loop-keeps fuel (record v { committed_off = (v.committed_off + size) % 2 ^ 32 }) w h
          same in
      elim (Result-cases (size_at sector_size ((setup.dest_addr + v.committed_off) % 2 ^ 32))) [
        | inl (size, e) ↦
            elim (Bool-cases (ltb v.flushed_off ((v.committed_off + size) % 2 ^ 32))) [
              | inl last ↦ rw (commit_loop, e, last) (h, same)
              | inr more ↦ rw (commit_loop, e, more) (next size)
            ]
        | inr (inl (code, e)) ↦ rw (commit_loop, e) (h.0)
        | inr (inr e) ↦ rw (commit_loop, e) (h.0)
      ]

  checkpoint-keeps :
      (v w : Vm S D)
      → Kept v
      → SameOutput w v
      → Ensures
          (λ _ v'. Kept v' × SameOutput w v')
          Failed
          (checkpoint hal sectors crypto sector_size setup v)
  unfolding checkpoint
  checkpoint-keeps v w h same =
      ground (arith, keeps.append_keeps v.journal v.hw (with_chunk_id v.txn v.committed_off))

  pub flush_bytes-keeps :
      (bytes : List ℕ) (v : Vm S D)
      → setup.dest_addr + v.flushed_off + length bytes ≤ limit
      → Kept v
      → Ensures
          (λ _ v'.
            Kept v'
            × ((v'.target_off ≡ v.target_off)
                × (v'.flushed_off ≡ v.flushed_off + length bytes)
                × (v'.buf ≡ [])))
          Failed
          (flush_bytes hal sectors crypto sector_size setup bytes v)
  unfolding flush_bytes
  flush_bytes-keeps bytes v fits h =
      let w = record v { flushed_off = v.flushed_off + length bytes; buf = [] } in
      elim (Bool-cases (leb v.flushed_off (4294967295 - setup.dest_addr))) [
        | inr no_room ↦ rw no_room (h.0)
        | inl room ↦
            elim (Bool-cases
              (leb (length bytes) (4294967295 - (setup.dest_addr + v.flushed_off)))) [
                | inr too_long ↦ rw (room, too_long) (h.0)
                | inl short ↦
                    rw (room, short)
                      (continue-Ensures (λ _ v'. Kept v' × SameOutput v v') Failed _ _ _
                        (erase_ahead-keeps (setup.dest_addr + v.flushed_off + length bytes)
                          (setup.dest_addr + v.flushed_off + length bytes) v v fits h
                          (refl, refl, refl))
                        λ _ v1 k1.
                          continue-Ensures (λ _ v'. Kept v' × SameOutput v v') Failed _ _ _
                            (write_out-keeps bytes v1 v (omega (arith, k1.1.1)) k1.0 k1.1)
                            λ _ v2 k2.
                              continue-Ensures (λ _ v'. Kept v' × SameOutput w v') Failed _ _ _
                                (commit_loop-keeps (v.flushed_off + length bytes + 1)
                                  (record v2 {
                                    flushed_off = v2.flushed_off + length bytes;
                                    buf = [];
                                  })
                                  w k2.0 (k2.1.0, ap (λ n. n + length bytes) k2.1.1, refl))
                                λ _ v3 k3. checkpoint-keeps v3 w k3.0 k3.1)
              ]
      ]
