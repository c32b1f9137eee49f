-- ===== src/Journal/Updated.antt =====
-- What a successful `boot_journal_update_tmr` leaves in memory.
use toob_loader.Common.{ℕ, zero, suc, ◌+◌, ◌%◌, ◌^◌, ◌≡◌, refl, Bool, true, false, not, ◌&&◌}
use toob_loader.Common.{
  ◌⊎◌, inl, inr, List, [], ◌∷◌, ◌++◌, if◌then◌else◌, arith, get_or, Bool-cases, subst,
}
use toob_loader.Common.{ltb, leb, ◌-◌}
use toob_loader.Status.{Status, ok_status, state, counter_exhausted, is_ok, Result}
use toob_loader.Hal.{FlashHal}
use toob_loader.Journal.Wire.{header_size}
use toob_loader.Journal.{
  Journal, Sector, no_sector, same_bytes, read_header, best_sector, rotate_to_sector,
}
use toob_loader.Journal.UpdateTmr.{quorum_loop, update_tmr, anchor, has_legacy_magic}
use toob_loader.Journal.UpdateTmr.{epoch_of, read_counter_safe}
use toob_loader.Journal.Vote.{same_bytes→≡}

module _ {S : Type 0} (hal : FlashHal S) (sectors : List Sector)
    (hash : List (List ℕ) → Result (List ℕ)) where
  -- The journal of a quorum that was written.
  pub record IsUpdated (seq steps : ℕ) (tmr : List ℕ) (j : Journal) : Type 0 where
    pub payload : j.tmr ≡ tmr
    pub fresh : j.write_offset ≡ header_size
    pub moved_on : j.sequence_id % 2 ^ 32 ≡ (seq + steps) % 2 ^ 32

  -- An outcome for which success implies `P`.
  abbrev OnSuccess : (Journal → S → Type 0) → Status × Journal × S → Type 0
  OnSuccess P (code, j, s) = code ≡ ok_status → P j s

  if_OnSuccess :
      (P : Journal → S → Type 0) (b : Bool) (x y : Status × Journal × S)
      → (b ≡ true → OnSuccess P x)
      → OnSuccess P y
      → OnSuccess P (if b then x else y)
  if_OnSuccess P true x y hx hy = hx refl
  if_OnSuccess P false x y hx hy = hy

  on_ok :
      (P : Journal → S → Type 0) (code : Status) (j : Journal) (s : S) (y : Status × Journal × S)
      → OnSuccess P y
      → OnSuccess P (if is_ok code then y else (code, j, s))
  on_ok P code j s y hy = elim (Bool-cases (is_ok code)) [
    | inl e ↦ rw e hy
    | inr e ↦ rw e (λ h. cc (e, h))
  ]

  not_ok :
      (P : Journal → S → Type 0) (code : Status) (j : Journal) (s : S)
      → is_ok code ≡ false
      → OnSuccess P (code, j, s)
  not_ok P code j s e h = cc (e, h)

  shift :
      (seq steps : ℕ) (tmr : List ℕ) (j : Journal)
      → IsUpdated ((seq + 1) % 2 ^ 32) steps tmr j
      → IsUpdated seq (suc steps) tmr j
  shift seq steps tmr j u = record {
    payload = u.payload;
    fresh = u.fresh;
    moved_on = omega (arith, u.moved_on);
  }

  map_OnSuccess :
      (P Q : Journal → S → Type 0) (x : Status × Journal × S)
      → ((j : Journal) (s : S) → P j s → Q j s)
      → OnSuccess P x
      → OnSuccess Q x
  map_OnSuccess P Q (code, j, s) f h e = f j s (h e)

  quorum_loop-IsUpdated :
      (steps : ℕ) (j : Journal) (s : S) (seq : ℕ) (exclude tmr : List ℕ) (count : ℕ)
      → OnSuccess
          (λ j' s'. IsUpdated seq steps tmr j')
          (quorum_loop hal sectors hash steps j s seq exclude tmr count)
  unfolding quorum_loop
  quorum_loop-IsUpdated zero j s seq exclude tmr count =
      λ e. record { payload = refl; fresh = refl; moved_on = omega arith }
  quorum_loop-IsUpdated (suc steps) j s seq exclude tmr count =
      let idx = best_sector hal sectors s seq exclude in
      let seq' = (seq + 1) % 2 ^ 32 in
      let r = rotate_to_sector hal sectors s idx seq' tmr in
      let j2 : Journal = record j { active_index = idx } in
      let later = exclude ++ (idx ∷ []) in
      on_ok (λ j' s'. IsUpdated seq (suc steps) tmr j') r.0 j r.2 _
        (map_OnSuccess (λ j' s'. IsUpdated seq' steps tmr j')
          (λ j' s'. IsUpdated seq (suc steps) tmr j')
          (quorum_loop hal sectors hash steps j2 r.2 seq' later tmr r.1)
          (λ j' s'. shift seq steps tmr j') (quorum_loop-IsUpdated steps j2 r.2 seq' later tmr r.1))

  Outcome : Result ℕ → Result ℕ → Journal → S → List ℕ → Journal → S → Type 0
  Outcome first second j s new_tmr j' s' =
      ((j.tmr ≡ new_tmr) × (j ≡ j') × (s ≡ s'))
      ⊎ IsUpdated j.sequence_id 3
          (anchor hal sectors hash j.key (epoch_of (read_counter_safe first second)) new_tmr) j'

  update_tmr-Outcome :
      (first second : Result ℕ) (j : Journal) (s : S) (new_tmr : List ℕ)
      → OnSuccess
          (Outcome first second j s new_tmr)
          (update_tmr hal sectors hash first second j s new_tmr)
  unfolding update_tmr Outcome
  update_tmr-Outcome first second j s new_tmr =
      let sec = get_or sectors j.active_index no_sector in
      let current = not (has_legacy_magic (read_header hal sectors s sec)) in
      let tmr = anchor hal sectors hash j.key (epoch_of (read_counter_safe first second)) new_tmr in
      let P = Outcome first second j s new_tmr in
      if_OnSuccess P (not j.initialized) (state, j, s) _ (λ b. not_ok P state j s refl)
        (if_OnSuccess P (current && same_bytes j.tmr new_tmr) (ok_status, j, s) _
          (λ same h. inl (
            same_bytes→≡ j.tmr new_tmr (second_true current (same_bytes j.tmr new_tmr) same),
            refl,
            refl,
          ))
          (if_OnSuccess P
            (ltb 0 hal.max_erase_cycles
              && leb ((hal.max_erase_cycles + 2 ^ 32 - 3) % 2 ^ 32) j.erase_count)
            (counter_exhausted, j, s) _ (λ b. not_ok P counter_exhausted j s refl)
            (map_OnSuccess (λ j' s'. IsUpdated j.sequence_id 3 tmr j') P
              (quorum_loop hal sectors hash 3 j s j.sequence_id (j.active_index ∷ []) tmr
                j.erase_count)
              (λ j' s' u. inr u)
              (quorum_loop-IsUpdated 3 j s j.sequence_id (j.active_index ∷ []) tmr j.erase_count))))
    where
      second_true : (a b : Bool) → a && b ≡ true → b ≡ true
      second_true true b h = h
      second_true false b h = cc

  -- Whenever `boot_journal_update_tmr` returns `BOOT_OK`, either the payload is the one in memory and
  -- neither the journal nor the hardware has changed, or the journal holds the anchored payload, its
  -- sequence number has moved on by three, and its frontier stands right behind a header.
  pub update_tmr-IsUpdated :
      (first second : Result ℕ) (j : Journal) (s : S) (new_tmr : List ℕ) (j' : Journal) (s' : S)
      → update_tmr hal sectors hash first second j s new_tmr ≡ (ok_status, j', s')
      → ((j.tmr ≡ new_tmr) × (j ≡ j') × (s ≡ s'))
        ⊎ IsUpdated j.sequence_id 3
            (anchor hal sectors hash j.key (epoch_of (read_counter_safe first second)) new_tmr)
            j'
  unfolding Outcome
  update_tmr-IsUpdated first second j s new_tmr j' s' e =
      subst (OnSuccess (Outcome first second j s new_tmr)) e
        (update_tmr-Outcome first second j s new_tmr) refl
