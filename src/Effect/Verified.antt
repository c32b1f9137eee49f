-- ===== src/Effect/Verified.antt =====
-- What a successful `boot_effect_execute` guarantees.
use toob_loader.Common.{
  ℕ, zero, suc, ◌+◌, ◌≤◌, ◌≡◌, refl, ap, subst, ◌∙◌, ◌⊎◌, inl, inr, arith, ◌≢◌, ◌%◌, ◌^◌,
}
use toob_loader.Common.{true, false, Bool-cases, ltb, ◌==◌, ==_iff, ==_refl, if◌then◌else◌}
use toob_loader.Common.{List, [], ◌∷◌, Option}
use toob_loader.Status.{Status, ok_status, is_ok, Result, ok, err, Result-cases}
use toob_loader.Hal.{FlashHal, CryptoHal, SlotCaps, ReadErrorsFail}
use toob_loader.Crc32.{flash_stream, stream_loop, step_of, crc_init, update}
use toob_loader.Journal.{Journal, Sector}
use toob_loader.Effect.{
  FlashEffect, EffectOp, eff_erase, eff_copy, eff_flip, AllowedRegion, is_buffer_within,
}
use toob_loader.Effect.{
  is_allowed, erase_safe, stream_copy, is_reached, check_reached, read_back, perform,
}

-- The target of an effect lies in a region of the whitelist.
abbrev pub Inside : List AllowedRegion → FlashEffect → Type 0
Inside [] fx = ⊥
Inside (r ∷ rs) fx =
    ((r.base_addr ≤ fx.dst) × (fx.dst + fx.len ≤ r.base_addr + r.max_size)) ⊎ Inside rs fx

is_buffer_within-inside :
    (a n b m : ℕ) → is_buffer_within a n b m ≡ true → (b ≤ a) × (a + n ≤ b + m)
unfolding is_buffer_within
is_buffer_within-inside a n b m h = ground arith

pub is_allowed-Inside :
    (rs : List AllowedRegion) (fx : FlashEffect) → is_allowed rs fx ≡ true → Inside rs fx
unfolding is_allowed
is_allowed-Inside [] fx h = cc
is_allowed-Inside (r ∷ rs) fx h =
    elim (Bool-cases (is_buffer_within fx.dst fx.len r.base_addr r.max_size)) [
      | inl b ↦ inl (is_buffer_within-inside fx.dst fx.len r.base_addr r.max_size b)
      | inr b ↦ inr (is_allowed-Inside rs fx (rw b at h))
    ]

op-cases : (o : EffectOp) → (o ≡ eff_erase) ⊎ ((o ≡ eff_copy) ⊎ (o ≡ eff_flip))
op-cases eff_erase = inl refl
op-cases eff_copy = inr (inl refl)
op-cases eff_flip = inr (inr refl)

module _ {S : Type 0} (hal : FlashHal S) (fails : ReadErrorsFail hal) where
  stream_loop-fails :
      (fuel : ℕ) (s : S) (addr len arena offset crc : ℕ) (e : Status)
      → stream_loop hal fuel s addr len arena offset crc ≡ err e
      → is_ok e ≡ false
  unfolding stream_loop
  stream_loop-fails zero s addr len arena offset crc e h = elim (Bool-cases (ltb offset len)) [
    | inl b ↦ absurd (cc (rw b at h))
    | inr b ↦ absurd (cc (rw b at h))
  ]
  stream_loop-fails (suc fuel) s addr len arena offset crc e h =
      let step = step_of arena len offset in
      let a = (addr + offset % 2 ^ 32) % 2 ^ 32 in
      elim (Bool-cases (ltb offset len)) [
        | inr b ↦ absurd (cc (rw b at h))
        | inl b ↦ elim (Result-cases (hal.read s a (step % 2 ^ 32))) [
          | inl (xs, r) ↦
              stream_loop-fails fuel s addr len arena (offset + step) (update crc xs) e
                (rw (b, r) at h)
          | inr (inl (c, r)) ↦ cc (rw (b, r) at h, fails.read_fails s a (step % 2 ^ 32) c r)
          | inr (inr r) ↦ absurd (cc (rw (b, r) at h))
        ]
      ]

  flash_stream-fails :
      (s : S) (addr len arena : ℕ) (e : Status)
      → flash_stream hal s addr len arena ≡ err e
      → is_ok e ≡ false
  unfolding flash_stream
  flash_stream-fails s addr len arena e h = stream_loop-fails len s addr len arena 0 crc_init e h

module _ {S : Type 0} (hal : FlashHal S) (fails : ReadErrorsFail hal) (sectors : List Sector)
    (crypto : CryptoHal) (arena_len : ℕ) (sector_size : ℕ → Result ℕ) (caps : Option (SlotCaps S))
    (first second : Result ℕ) where
  -- The flash shows what an effect is for.
  abbrev pub Reached : S → FlashEffect → Type 0
  Reached s fx = flash_stream hal s fx.dst fx.len arena_len ≡ ok fx.post_crc

  pub is_reached-Reached :
      (s : S) (fx : FlashEffect)
      → is_reached hal sectors crypto arena_len sector_size caps first second s fx ≡ true
      → Reached s fx
  unfolding is_reached
  is_reached-Reached s fx h = elim (Result-cases (flash_stream hal s fx.dst fx.len arena_len)) [
    | inl (crc, r) ↦ r ∙ ap ok ((==_iff crc fx.post_crc).0 (rw (is_reached, r) at h))
    | inr (inl (c, r)) ↦ absurd (cc (rw (is_reached, r) at h))
    | inr (inr r) ↦ absurd (cc (rw (is_reached, r) at h))
  ]

  pub Reached-is_reached :
      (s : S) (fx : FlashEffect)
      → Reached s fx
      → is_reached hal sectors crypto arena_len sector_size caps first second s fx ≡ true
  unfolding is_reached
  Reached-is_reached s fx h = rw (is_reached, h) (==_refl fx.post_crc)

  check_reached-Reached :
      (s : S) (fx : FlashEffect)
      → is_ok (check_reached hal sectors crypto arena_len sector_size caps first second s fx) ≡ true
      → Reached s fx
  unfolding check_reached
  check_reached-Reached s fx h = elim (Result-cases (flash_stream hal s fx.dst fx.len arena_len)) [
    | inl (crc, r) ↦ elim (Bool-cases (crc == fx.post_crc)) [
      | inl b ↦ r ∙ ap ok ((==_iff crc fx.post_crc).0 b)
      | inr b ↦ absurd (cc (rw (check_reached, r, b) at h))
    ]
    | inr (inl (c, r)) ↦ absurd (
        cc (rw (check_reached, r) at h, flash_stream-fails hal fails s fx.dst fx.len arena_len c r))
    | inr (inr r) ↦ absurd (cc (rw (check_reached, r) at h))
  ]

  read_back-Reached :
      (j : Journal) (r : Status × S) (fx : FlashEffect) (j' : Journal) (s' : S)
      → read_back hal sectors crypto arena_len sector_size caps first second j r fx
        ≡ (ok_status, j', s')
      → Reached s' fx
  unfolding read_back
  read_back-Reached j (code, s) fx j' s' h =
      let status : (if is_ok code
            then check_reached hal sectors crypto arena_len sector_size caps first second s fx
            else code)
          ≡ ok_status =
        ap (λ (p : Status × Journal × S). p.0) h in
      let moved : s ≡ s' = ap (λ (p : Status × Journal × S). p.2) h in
      elim (Bool-cases (is_ok code)) [
        | inl b ↦
            subst (λ x. Reached x fx) moved
              (check_reached-Reached s fx (ap (λ c. is_ok c) (rw b at status)))
        | inr b ↦ absurd (cc (b, rw b at status))
      ]

  pub perform-Reached :
      (j : Journal) (s : S) (fx : FlashEffect) (j' : Journal) (s' : S)
      → fx.op ≢ eff_flip
      → perform hal sectors crypto arena_len sector_size caps first second j s fx
        ≡ (ok_status, j', s')
      → Reached s' fx
  unfolding perform
  perform-Reached j s fx j' s' stays h = elim (op-cases fx.op) [
    | inl o ↦
        read_back-Reached j (erase_safe hal arena_len sector_size s fx.dst fx.len) fx j' s'
          (rw (perform, o) at h)
    | inr (inl o) ↦
        read_back-Reached j (stream_copy hal arena_len s fx.src fx.dst fx.len) fx j' s'
          (rw (perform, o) at h)
    | inr (inr o) ↦ absurd (stays o)
  ]
