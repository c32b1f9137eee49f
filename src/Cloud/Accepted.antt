-- ===== src/Cloud/Accepted.antt =====
-- What a command that is accepted has gone through.
use toob_loader.Common.{ℕ, ◌+◌, ◌-◌, ◌≤◌, ◌<◌, ◌≡◌, refl, sym, ap, ◌∙◌, true, arith}
use toob_loader.Common.{ltb, leb, List, take, Option, some, Option-cases}
use toob_loader.Common.{Bool-cases, inl, inr, ltb→lt, leb→le, leb_false→lt}
use toob_loader.Status.{ok_status, is_ok, is_ok→≡, Result, ok, err, stuck, Result-cases}
use toob_loader.Hal.{FlashHal, CryptoHal, SignatureHal, CounterHal}
use toob_loader.Flow.{Action, ◌>>◌, continue, give, Ensures, continue-Ensures, Anything}
use toob_loader.Flow.{continue_any, Ensures_ok, Ensures-mono}
use toob_loader.Journal.{Journal, Sector, same_bytes}
use toob_loader.Journal.Vote.{same_bytes→≡}
use toob_loader.Journal.Init.{get_tmr}
use toob_loader.Journal.Counter.{read_counter_safe-ok}
use toob_loader.Identity.{derive_device_id}
use toob_loader.Rstore.{Desc}
use toob_loader.Cloud.{
  CommandEnvelope, Decoded, World, on_hw, max_burn_steps, sig_cbor_size, last_issued_at_of,
}
use toob_loader.Cloud.{
  load_active_cloud_key, check_device, read_counter, last_accepted, check_signature, decode_buffer,
  persist_issued_at, execute_command, evaluate_decoded, evaluate_buffer, burn, rotate_key,
}

lift_result :
    {S A : Type 0} (Q : A → S → Type 0) (r : Result A × S) (w : World S)
    → Ensures Q Anything r
    → Ensures (λ a w'. Q a w'.hw) Anything (r.0, record w { hw = r.1 })
lift_result Q (ok a, s) w h = h
lift_result Q (err e, s) w h = tt
lift_result Q (stuck, s) w h = tt

-- A claim on the result of a step on the hardware.
lift_hw :
    {S A : Type 0} (Q : A → S → Type 0) (m : Action S A) (w : World S)
    → Ensures Q Anything (m w.hw)
    → Ensures (λ a w'. Q a w'.hw) Anything (on_hw m w)
lift_hw Q m w h = lift_result Q (m w.hw) w h

module _ {S : Type 0} (hal : FlashHal S) (sectors : List Sector) (crypto : CryptoHal)
    (signatures : SignatureHal) (counter : CounterHal S) (kdm_store : Desc)
    (decode : List ℕ → Option Decoded) where
  -- The signature stands behind the signed part of the buffer, and is one of the active key.
  abbrev pub IsSigned : List ℕ → Decoded → S → Type 0
  IsSigned buf d s =
      (key : List ℕ) × ((load_active_cloud_key hal crypto signatures counter kdm_store s).0
        ≡ ok key)
      × (sig_cbor_size < d.decoded_len)
      × (signatures.verify_signature (take (d.decoded_len - sig_cbor_size) buf)
            d.envelope.command_signature key
          ≡ ok_status)

  -- A command for this device, above its counter, newer than the last one, and signed.
  abbrev pub IsGenuine : List ℕ → Decoded → World S → Type 0
  IsGenuine buf d w =
      (derive_device_id crypto ≡ ok d.envelope.device_id)
      × ((current : ℕ) × ((counter.counter_reads w.hw).0 ≡ ok current)
          × ((counter.counter_reads w.hw).1 ≡ ok current)
          × (current < d.envelope.counter_min)
          × (d.envelope.counter_min ≤ current + max_burn_steps))
      × (0 < d.envelope.issued_at)
      × (w.journal.initialized ≡ true → last_issued_at_of w.journal.tmr < d.envelope.issued_at)
      × IsSigned buf d w.hw

  check_device-bears :
      (cmd : CommandEnvelope)
      → check_device hal sectors crypto signatures counter kdm_store decode cmd ≡ ok tt
      → derive_device_id crypto ≡ ok cmd.device_id
  unfolding check_device
  check_device-bears cmd h = elim (Result-cases (derive_device_id crypto)) [
    | inl (local_id, e) ↦ elim (Bool-cases (same_bytes cmd.device_id local_id)) [
      | inl same ↦ e ∙ ap ok (sym (same_bytes→≡ cmd.device_id local_id same))
      | inr differ ↦ absurd (cc (rw (check_device, e, differ) at h))
    ]
    | inr (inl (code, e)) ↦ absurd (cc (rw (check_device, e) at h))
    | inr (inr e) ↦ absurd (cc (rw (check_device, e) at h))
  ]

  read_counter-agree :
      (s : S) (current : ℕ)
      → read_counter hal sectors crypto signatures counter kdm_store decode s ≡ ok current
      → ((counter.counter_reads s).0 ≡ ok current) × ((counter.counter_reads s).1 ≡ ok current)
  unfolding read_counter
  read_counter-agree s current h = elim (Option-cases counter.advance_monotonic_counter) [
    | inl e ↦ absurd (cc (rw (read_counter, e) at h))
    | inr (advance, e) ↦ read_counter_safe-ok _ _ current (rw (read_counter, e) at h)
  ]

  last_accepted-below :
      (j : Journal) (issued_at : ℕ)
      → last_accepted hal sectors crypto signatures counter kdm_store decode j < issued_at
      → (0 < issued_at) × (j.initialized ≡ true → last_issued_at_of j.tmr < issued_at)
  unfolding last_accepted get_tmr
  last_accepted-below j issued_at h =
      (omega arith, λ ready. rw (last_accepted, get_tmr, ready) at h)

  signature_step :
      (Q : Unit {0} → S → Type 0) (buf : List ℕ) (d : Decoded) (s : S)
      → (IsSigned buf d s
          → Q tt (load_active_cloud_key hal crypto signatures counter kdm_store s).1)
      → Ensures Q Anything
          (check_signature hal sectors crypto signatures counter kdm_store decode buf d s)
  unfolding check_signature
  signature_step Q buf d s next =
      elim (Result-cases (load_active_cloud_key hal crypto signatures counter kdm_store s).0) [
        | inl (key, r) ↦ elim (Bool-cases (leb d.decoded_len sig_cbor_size)) [
          | inl short ↦ rw (check_signature, r, short) tt
          | inr long ↦
              elim (Bool-cases (
                is_ok (
                  signatures.verify_signature (take (d.decoded_len - sig_cbor_size) buf)
                    d.envelope.command_signature key))) [
                      | inl good ↦
                          rw (check_signature, r, long, good)
                            (next (key, r, leb_false→lt _ _ long, is_ok→≡ _ good))
                      | inr bad ↦ rw (check_signature, r, long, bad) tt
                    ]
        ]
        | inr (inl (code, r)) ↦ rw (check_signature, r) tt
        | inr (inr r) ↦ rw (check_signature, r) tt
      ]

  on_hw-IsSigned :
      (buf : List ℕ) (d : Decoded) (w : World S)
      → Ensures
          (λ _ _. IsSigned buf d w.hw)
          Anything
          (on_hw (check_signature hal sectors crypto signatures counter kdm_store decode buf d) w)
  on_hw-IsSigned buf d w =
      lift_hw (λ _ _. IsSigned buf d w.hw)
        (check_signature hal sectors crypto signatures counter kdm_store decode buf d) w
        (signature_step (λ _ _. IsSigned buf d w.hw) buf d w.hw (λ signed. signed))

  -- The checks in front of the signature.
  reach :
      (Q : ℕ → World S → Type 0) (buf : List ℕ) (d : Decoded) (w : World S)
      → ((current : ℕ)
          → check_device hal sectors crypto signatures counter kdm_store decode d.envelope ≡ ok tt
          → read_counter hal sectors crypto signatures counter kdm_store decode w.hw ≡ ok current
          → current < d.envelope.counter_min
          → last_accepted hal sectors crypto signatures counter kdm_store decode w.journal
            < d.envelope.issued_at
          → Ensures Q Anything (
              continue
                (on_hw
                  (check_signature hal sectors crypto signatures counter kdm_store decode buf d)
                  w)
                (λ _.
                  execute_command hal sectors crypto signatures counter kdm_store decode d.envelope
                    current)))
      → Ensures Q Anything
          (evaluate_decoded hal sectors crypto signatures counter kdm_store decode buf d w)
  unfolding evaluate_decoded
  reach Q buf d w next =
      elim (Result-cases
        (check_device hal sectors crypto signatures counter kdm_store decode d.envelope)) [
          | inr (inl (code, e)) ↦ rw e tt
          | inr (inr e) ↦ rw e tt
          | inl (tt, e) ↦
              elim (Result-cases
                (read_counter hal sectors crypto signatures counter kdm_store decode w.hw)) [
                  | inr (inl (code, r)) ↦ rw (e, r) tt
                  | inr (inr r) ↦ rw (e, r) tt
                  | inl (current, r) ↦ elim (Bool-cases (ltb current d.envelope.counter_min)) [
                    | inr old ↦ rw (e, r, old) tt
                    | inl new ↦
                        elim (Bool-cases (
                          ltb
                            (last_accepted hal sectors crypto signatures counter kdm_store decode
                              w.journal)
                            d.envelope.issued_at)) [
                              | inr stale ↦ rw (e, r, new, stale) tt
                              | inl fresh ↦
                                  rw (e, r, new, fresh)
                                    (next current e r (ltb→lt _ _ new) (ltb→lt _ _ fresh))
                            ]
                  ]
                ]
        ]

  execute_command-burns :
      (cmd : CommandEnvelope) (current : ℕ) (w : World S)
      → Ensures
          (λ c _. (cmd.counter_min - current ≤ max_burn_steps) × (c ≡ cmd.command))
          Anything
          (execute_command hal sectors crypto signatures counter kdm_store decode cmd current w)
  unfolding execute_command
  execute_command-burns cmd current w =
      let Burns : ℕ → World S → Type 0 =
        λ c _. (cmd.counter_min - current ≤ max_burn_steps) × (c ≡ cmd.command) in
      let last : Action (World S) ℕ =
        persist_issued_at hal sectors crypto signatures counter kdm_store decode cmd
        >> give (ok cmd.command) in
      let rest : Action (World S) ℕ =
        on_hw (rotate_key hal crypto signatures counter kdm_store cmd) >> last in
      let burnt : cmd.counter_min - current ≤ max_burn_steps → Burns cmd.command w =
        λ few. (few, refl) in
      elim (Bool-cases (leb (cmd.counter_min - current) max_burn_steps)) [
        | inr many ↦ rw many tt
        | inl few ↦ rw few (
            continue_any {A = Unit {0}} Burns
              (on_hw (burn hal crypto signatures counter kdm_store (cmd.counter_min - current)) w)
              (λ _. rest)
              λ _ w1.
                continue_any {A = Unit {0}} Burns
                  (on_hw (rotate_key hal crypto signatures counter kdm_store cmd) w1) (λ _. last)
                  λ _ w2.
                    continue_any {A = Unit {0}} Burns
                      (persist_issued_at hal sectors crypto signatures counter kdm_store decode cmd
                        w2)
                      (λ _. give (ok cmd.command)) λ _ w3. burnt (leb→le _ _ few))
      ]

  genuine :
      (buf : List ℕ) (d : Decoded) (w : World S)
      → Ensures
          (λ c _. IsGenuine buf d w × (c ≡ d.envelope.command))
          Anything
          (evaluate_decoded hal sectors crypto signatures counter kdm_store decode buf d w)
  genuine buf d w =
      reach (λ c _. IsGenuine buf d w × (c ≡ d.envelope.command)) buf d w
        λ current same_device counted newer fresh.
          continue-Ensures (λ _ _. IsSigned buf d w.hw) Anything
            (λ c _. IsGenuine buf d w × (c ≡ d.envelope.command)) _ _ (on_hw-IsSigned buf d w)
            λ _ w1 signed.
              Ensures-mono _ (λ c _. IsGenuine buf d w × (c ≡ d.envelope.command)) Anything _
                (execute_command-burns d.envelope current w1)
                λ c w2 burns.
                  let (first, second) = read_counter-agree w.hw current counted in
                  let (positive, later) =
                    last_accepted-below w.journal d.envelope.issued_at fresh in
                  (
                    (
                      check_device-bears d.envelope same_device,
                      (current, first, second, newer, omega (arith, burns.0)),
                      positive,
                      later,
                      signed,
                    ),
                    burns.1,
                  )

  -- A command that `boot_cloud_cmd_evaluate_buffer` puts out was decoded from the buffer, bears this
  -- device's identifier and a signature of the active key over all that stands in front of it, was issued
  -- later than the time in the payload of a started journal, and later than 0 in any case, and asks for
  -- a counter above the one that both reads give, by four steps at most.
  pub evaluate_buffer-IsGenuine :
      (buf : List ℕ) (w w' : World S) (c : ℕ)
      → evaluate_buffer hal sectors crypto signatures counter kdm_store decode buf w ≡ (ok c, w')
      → (d : Decoded) × (decode buf ≡ some d) × IsGenuine buf d w × (c ≡ d.envelope.command)
  unfolding evaluate_buffer decode_buffer
  evaluate_buffer-IsGenuine buf w w' c h = elim (Option-cases (decode buf)) [
    | inl e ↦ absurd (cc (rw (evaluate_buffer, decode_buffer, e) at h))
    | inr (d, e) ↦
        let (a, b) =
          Ensures_ok (λ c _. IsGenuine buf d w × (c ≡ d.envelope.command)) Anything
            (evaluate_decoded hal sectors crypto signatures counter kdm_store decode buf d w) c w'
            (genuine buf d w) (rw (evaluate_buffer, decode_buffer, e) at h) in
        (d, e, a, b)
  ]
