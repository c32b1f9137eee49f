-- ===== src/Effect/Executed.antt =====
-- Plans of effects that were executed with success.
use toob_loader.Common.{ℕ, ◌≡◌, refl, ap, subst, inl, inr, ◌≢◌}
use toob_loader.Common.{true, Bool-cases, All, List, [], ◌∷◌, ◌++◌, Option}
use toob_loader.Status.{Status, ok_status, is_ok, is_ok→≡, Result, ok}
use toob_loader.Hal.{FlashHal, CryptoHal, SlotCaps, ReadErrorsFail}
use toob_loader.Crc32.{flash_stream}
use toob_loader.Journal.{Journal, Sector}
use toob_loader.Journal.Outcome.{if_success}
use toob_loader.Effect.{
  FlashEffect, eff_flip, AllowedRegion, is_allowed, is_reached, execute_one, execute,
}
use toob_loader.Effect.Verified.{
  Inside, is_allowed-Inside, is_reached-Reached, Reached-is_reached, perform-Reached, Reached,
}

module _ {S : Type 0} (hal : FlashHal S) (fails : ReadErrorsFail hal) (sectors : List Sector)
    (crypto : CryptoHal) (arena_len : ℕ) (sector_size : ℕ → Result ℕ) (caps : Option (SlotCaps S))
    (first second : Result ℕ) where
  execute_one-allowed :
      (whitelist : List AllowedRegion) (j : Journal) (s : S) (fx : FlashEffect)
      → is_ok
          (execute_one hal sectors crypto arena_len sector_size caps first second whitelist j s
            fx).0
        ≡ true
      → is_allowed whitelist fx ≡ true
  unfolding execute_one
  execute_one-allowed whitelist j s fx h = elim (Bool-cases (is_allowed whitelist fx)) [
    | inl b ↦ b
    | inr b ↦ absurd (cc (rw (execute_one, b) at h))
  ]

  execute_one-Reached :
      (whitelist : List AllowedRegion) (j : Journal) (s : S) (fx : FlashEffect) (j' : Journal)
      (s' : S)
      → fx.op ≢ eff_flip
      → execute_one hal sectors crypto arena_len sector_size caps first second whitelist j s fx
        ≡ (ok_status, j', s')
      → Reached hal fails sectors crypto arena_len sector_size caps first second s' fx
  unfolding execute_one
  execute_one-Reached whitelist j s fx j' s' stays h = elim (Bool-cases (is_allowed whitelist fx)) [
    | inr b ↦ absurd (cc (ap (λ (p : Status × Journal × S). p.0) (rw (execute_one, b) at h)))
    | inl b ↦
        elim (Bool-cases
          (is_reached hal sectors crypto arena_len sector_size caps first second s fx)) [
            | inl r ↦
                let moved : s ≡ s' =
                  ap (λ (p : Status × Journal × S). p.2) (rw (execute_one, b, r) at h) in
                subst
                  (λ x.
                    Reached hal fails sectors crypto arena_len sector_size caps first second x fx)
                  moved
                  (is_reached-Reached hal fails sectors crypto arena_len sector_size caps first
                    second s fx r)
            | inr r ↦
                perform-Reached hal fails sectors crypto arena_len sector_size caps first second j s
                  fx j' s' stays (rw (execute_one, b, r) at h)
          ]
  ]

  execute-step :
      (whitelist : List AllowedRegion) (j : Journal) (s : S) (fx : FlashEffect)
      (fxs : List FlashEffect) (j' : Journal) (s' : S)
      → execute hal sectors crypto arena_len sector_size caps first second whitelist j s (fx ∷ fxs)
        ≡ (ok_status, j', s')
      → let r =
          execute_one hal sectors crypto arena_len sector_size caps first second whitelist j s fx in
        (is_ok r.0 ≡ true)
        × (execute hal sectors crypto arena_len sector_size caps first second whitelist r.1 r.2 fxs
            ≡ (ok_status, j', s'))
  unfolding execute
  execute-step whitelist j s fx fxs j' s' h =
      let r =
        execute_one hal sectors crypto arena_len sector_size caps first second whitelist j s fx in
      if_success r.0 r.1 r.2 _ j' s' h

  -- A plan of erases and copies, or of any effects before a last erase or copy, that was executed with
  -- `BOOT_OK` has touched no target outside the whitelist, and the flash has the checksum that the last
  -- effect asks for.
  pub execute-verified :
      (whitelist : List AllowedRegion) (j : Journal) (s : S) (fxs : List FlashEffect)
      (last : FlashEffect) (j' : Journal) (s' : S)
      → last.op ≢ eff_flip
      → execute hal sectors crypto arena_len sector_size caps first second whitelist j s
          (fxs ++ (last ∷ []))
        ≡ (ok_status, j', s')
      → All (Inside whitelist) (fxs ++ (last ∷ []))
        × (flash_stream hal s' last.dst last.len arena_len ≡ ok last.post_crc)
  unfolding execute
  execute-verified whitelist j s [] last j' s' stays h =
      let r =
        execute_one hal sectors crypto arena_len sector_size caps first second whitelist j s last in
      let (b, e) = execute-step whitelist j s last [] j' s' h in
      let moved : r.2 ≡ s' = ap (λ (p : Status × Journal × S). p.2) e in
      let done : r ≡ (ok_status, r.1, r.2) = ap (λ c. (c, r.1, r.2)) (is_ok→≡ r.0 b) in
      (
        (is_allowed-Inside whitelist last (execute_one-allowed whitelist j s last b), tt),
        subst (λ x. Reached hal fails sectors crypto arena_len sector_size caps first second x last)
            moved (execute_one-Reached whitelist j s last r.1 r.2 stays done),
      )
  execute-verified whitelist j s (fx ∷ fxs) last j' s' stays h =
      let r =
        execute_one hal sectors crypto arena_len sector_size caps first second whitelist j s fx in
      let (b, e) = execute-step whitelist j s fx (fxs ++ (last ∷ [])) j' s' h in
      let (inside, reached) = execute-verified whitelist r.1 r.2 fxs last j' s' stays e in
      ((is_allowed-Inside whitelist fx (execute_one-allowed whitelist j s fx b), inside), reached)

  -- An erase or a copy that was executed with `BOOT_OK` is skipped when it is executed again, by which
  -- neither the journal nor the hardware changes.
  pub execute-again :
      (whitelist : List AllowedRegion) (j : Journal) (s : S) (fx : FlashEffect) (j' : Journal)
      (s' : S)
      → fx.op ≢ eff_flip
      → execute hal sectors crypto arena_len sector_size caps first second whitelist j s (fx ∷ [])
        ≡ (ok_status, j', s')
      → execute hal sectors crypto arena_len sector_size caps first second whitelist j' s' (fx ∷ [])
        ≡ (ok_status, j', s')
  unfolding execute execute_one
  execute-again whitelist j s fx j' s' stays h =
      let (b, e) = execute-step whitelist j s fx [] j' s' h in
      rw
        (
          execute_one-allowed whitelist j s fx b,
          Reached-is_reached hal fails sectors crypto arena_len sector_size caps first second s' fx
              (execute-verified whitelist j s [] fx j' s' stays h).1,
        )
        refl
