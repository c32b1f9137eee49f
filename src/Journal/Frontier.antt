-- ===== src/Journal/Frontier.antt =====
-- `scan_for_frontier_linear`: where the next entry of a sector goes.
use toob_loader.Common.{
  ℕ, zero, suc, ◌+◌, ◌*◌, ◌≤◌, ◌<◌, ◌%◌, ◌^◌, ◌≡◌, refl, true, false, ◌⊎◌, inl, inr,
}
use toob_loader.Common.{List, leb, Bool-cases, le→leb, leb→le, arith, subst}
use toob_loader.Status.{ok, Result-cases}
use toob_loader.Hal.{FlashHal}
use toob_loader.Journal.Wire.{entry_size, header_size, is_fully_erased, classify_entry}
use toob_loader.Journal.Wire.{erased, valid, corrupt}
use toob_loader.Journal.{Sector, frontier_loop, scan_for_frontier}

classify_entry-erased :
    (bs : List ℕ) (v : ℕ) → is_fully_erased bs v ≡ true → classify_entry bs v ≡ erased
unfolding classify_entry
classify_entry-erased bs v e = rw e refl

classify_entry-written :
    (bs : List ℕ) (v : ℕ)
    → is_fully_erased bs v ≡ false
    → (classify_entry bs v ≡ valid) ⊎ (classify_entry bs v ≡ corrupt)
unfolding classify_entry
classify_entry-written bs v e = ground arith

module _ {S : Type 0} (hal : FlashHal S) (s : S) (addr size : ℕ) where
  -- The slot at `offset` lies in the sector, can be read, and is not blank.
  abbrev pub IsUsed : ℕ → Type 0
  IsUsed offset =
      (bs : List ℕ) × (offset + 64 ≤ size)
      × (hal.read s ((addr + offset) % 2 ^ 32) entry_size ≡ ok bs)
      × (is_fully_erased bs hal.erased_value ≡ false)

  -- `r` is the first slot from `offset` on that is not used.
  pub record IsFrontier (offset r : ℕ) : Type 0 where
    pub slots : ℕ
    pub place : r ≡ offset + 64 * slots
    pub before : (m : ℕ) → m < slots → IsUsed (offset + 64 * m)
    pub stops : ¬ IsUsed r

  here : (offset : ℕ) → ¬ IsUsed offset → IsFrontier offset offset
  here offset free = record {
    slots = 0;
    place = omega arith;
    before = λ m lt. absurd (omega arith);
    stops = free;
  }

  next : (offset r : ℕ) → IsUsed offset → IsFrontier (offset + 64) r → IsFrontier offset r
  next offset r used f = record {
    slots = suc f.slots;
    place = omega (arith, f.place);
    before = each;
    stops = f.stops;
  }
    where
      same : (n : ℕ) → n ≡ n + 64 * 0
      same n = omega arith

      shift : (n m : ℕ) → n + 64 + 64 * m ≡ n + 64 * suc m
      shift n m = omega arith

      each : (m : ℕ) → m < suc f.slots → IsUsed (offset + 64 * m)
      each zero lt = subst IsUsed (same offset) used
      each (suc m) lt = subst IsUsed (shift offset m) (f.before m (omega arith))

  frontier_loop-IsFrontier :
      (sectors : List Sector) (fuel offset : ℕ)
      → size < offset + 64 * fuel + 64
      → IsFrontier offset (frontier_loop hal sectors fuel s addr size offset)
  unfolding frontier_loop
  frontier_loop-IsFrontier sectors zero offset h = here offset (λ (bs, room, r, used). omega arith)
  frontier_loop-IsFrontier sectors (suc fuel) offset h =
      let on = frontier_loop-IsFrontier sectors fuel (offset + 64) (omega arith) in
      elim (Bool-cases (leb (offset + 64) size)) [
        | inr e ↦
            rw (frontier_loop, e)
              (here offset (λ (bs, room, r, used). cc (e, le→leb (offset + 64) size room)))
        | inl e ↦ elim (Result-cases (hal.read s ((addr + offset) % 2 ^ 32) entry_size)) [
          | inr (inl (f, r)) ↦
              rw (frontier_loop, e, r) (here offset (λ (bs, room, r', used). cc (r, r')))
          | inr (inr r) ↦
              rw (frontier_loop, e, r) (here offset (λ (bs, room, r', used). cc (r, r')))
          | inl (bs, r) ↦ elim (Bool-cases (is_fully_erased bs hal.erased_value)) [
            | inl b ↦
                rw (frontier_loop, e, r, classify_entry-erased bs hal.erased_value b)
                  (here offset (λ (bs', room, r', used). cc (r, r', b, used)))
            | inr b ↦
                let used : IsUsed offset = (bs, leb→le (offset + 64) size e, r, b) in
                elim (classify_entry-written bs hal.erased_value b) [
                  | inl c ↦ rw (frontier_loop, e, r, c) (next offset _ used on)
                  | inr c ↦ rw (frontier_loop, e, r, c) (next offset _ used on)
                ]
          ]
        ]
      ]

-- The frontier of a sector is the first slot behind its header that does not lie in the sector,
-- cannot be read, or is blank: every slot in front of it is in use. A slot in use whose entry is
-- corrupt does not stop the scan.
pub scan_for_frontier-IsFrontier :
    {S : Type 0} (hal : FlashHal S) (sectors : List Sector) (s : S) (sec : Sector)
    → IsFrontier hal s sec.addr sec.size header_size (scan_for_frontier hal sectors s sec)
unfolding scan_for_frontier
scan_for_frontier-IsFrontier hal sectors s sec =
    frontier_loop-IsFrontier hal s sec.addr sec.size sectors sec.size header_size (omega arith)
