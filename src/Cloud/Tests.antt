-- ===== src/Cloud/Tests.antt =====
-- A command for a device that is not provisioned, and a delegated key.
use toob_loader.Common.{
  ℕ, ◌≡◌, ◌≢◌, refl, ap, arith, List, [], ◌∷◌, ◌++◌, replicate, Option, none, some,
}
use toob_loader.Common.{◌==◌, if◌then◌else◌, ltb}
use toob_loader.Status.{ok_status, verify, not_found, Result, ok, err}
use toob_loader.Hal.{CryptoHal, SignatureHal, CounterHal}
use toob_loader.Journal.{same_bytes, is_newer_sequence}
use toob_loader.Journal.Init.{get_tmr}
use toob_loader.Journal.UpdateTmr.{read_counter_safe, update_tmr}
use toob_loader.Journal.Samples.{memory, journal_at}
use toob_loader.Identity.{derive_device_id}
use toob_loader.Crc32
use toob_loader.Rstore.{Desc, slot_bytes, rstore_read}
use toob_loader.Verify.{not_all_zeros}
use toob_loader.Cloud.{Decoded, World}
use toob_loader.Cloud.{
  fallback_key, load_active_cloud_key, burn, rotate_key, check_device, read_counter, last_accepted,
  check_signature, decode_buffer, persist_issued_at, execute_command, evaluate_decoded,
  evaluate_buffer, evaluate_flash,
}
use toob_loader.Cloud.Accepted.{IsGenuine, evaluate_buffer-IsGenuine}
use toob_loader.Cloud.Keys.{
  IsProvisioned, IsDelegated, load_active_cloud_key-IsDelegated, evaluate_flash-no_room,
}

abbrev first_of : List ℕ → ℕ
first_of [] = 0
first_of (x ∷ xs) = x

-- A signature is the first byte of its message, under a key that begins with 7.
abbrev toy_signatures : SignatureHal
toy_signatures = record {
  verify_signature = λ message signature key.
      if first_of signature == first_of message
      then if first_of key == 7 then ok_status else verify
      else verify;
  is_pqc_enforced = none;
  verify_pqc = none;
}

abbrev toy_crypto : CryptoHal
toy_crypto = record {
  read_chip_uid = ok (1 ∷ (2 ∷ []));
  read_pubkey = λ i. if ltb i 2 then ok (7 ∷ (8 ∷ [])) else err not_found;
  hash = λ parts. ok (9 ∷ (9 ∷ []));
}

-- The counter stands at 3; `dslc` is 0 for a device that is not provisioned.
abbrev toy_counter : ℕ → CounterHal (List ℕ)
toy_counter dslc = record {
  read_dslc = some (λ s. ok dslc);
  counter_reads = λ s. (ok 3, ok 3);
  advance_monotonic_counter = some (λ s. (ok_status, s));
}

abbrev no_store : Desc
no_store = record { slots = []; record_size = 128; record_magic = 0x4B444D51 }

abbrev unlock : Decoded
unlock = record {
  envelope = record {
    device_id = 9 ∷ (9 ∷ []);
    command = 3;
    counter_min = 5;
    issued_at = 1;
    params = none;
    command_signature = 4 ∷ [];
  };
  decoded_len = 70;
}

abbrev toy_decode : List ℕ → Option Decoded
toy_decode buf = some unlock

-- A journal that is started, whose last command was issued at 0.
abbrev world : World (List ℕ)
world = record { journal = journal_at 128; hw = [] }

abbrev outcome : Result ℕ × World (List ℕ)
outcome =
    evaluate_buffer memory [] toy_crypto toy_signatures (toy_counter 0) no_store toy_decode
      (replicate 70 4) world

accepted : outcome ≡ (ok 3, outcome.1)
unfolding evaluate_buffer decode_buffer evaluate_decoded check_device read_counter last_accepted
    check_signature load_active_cloud_key fallback_key execute_command burn rotate_key
    persist_issued_at rstore_read derive_device_id same_bytes read_counter_safe get_tmr update_tmr
accepted = refl

evaluate_buffer-IsGenuine_example :
    (d : Decoded) × (toy_decode (replicate 70 4) ≡ some d)
    × IsGenuine memory [] toy_crypto toy_signatures
        (toy_counter 0)
        no_store
        toy_decode
        (replicate 70 4)
        d
        world
    × (3 ≡ d.envelope.command)
evaluate_buffer-IsGenuine_example =
    evaluate_buffer-IsGenuine memory [] toy_crypto toy_signatures (toy_counter 0) no_store
      toy_decode (replicate 70 4) world outcome.1 3 accepted

-- A store of three slots, which all hold one record.
abbrev kdm_slots : Desc
kdm_slots = record {
  slots =
      record { addr = 0; size = 144 }
      ∷ (record { addr = 144; size = 144 } ∷ (record { addr = 288; size = 144 } ∷ []));
  record_size = 128;
  record_magic = 0x4B444D51;
}

abbrev kdm : List ℕ
kdm = replicate 128 1

-- The bytes of the store.
abbrev stored : List ℕ
stored =
    slot_bytes kdm_slots 5 1 kdm ++ (slot_bytes kdm_slots 5 1 kdm ++ slot_bytes kdm_slots 5 1 kdm)

loaded :
    (load_active_cloud_key memory toy_crypto toy_signatures (toy_counter 1) kdm_slots stored).0
    ≡ ok (replicate 32 1)
unfolding load_active_cloud_key rstore_read slot_bytes not_all_zeros Crc32.compute same_bytes
    is_newer_sequence
loaded = refl

abbrev read_with : Option (List ℕ → Result ℕ) → List ℕ → Result ℕ
read_with none s = ok 0
read_with (some read_dslc) s = read_dslc s

provisioned : IsProvisioned memory toy_crypto toy_signatures (toy_counter 1) kdm_slots
provisioned read_dslc s d h = cc (ap (λ r. read_with r s) d, h)

load_active_cloud_key-IsDelegated_example :
    (record_bytes : List ℕ) × ((rstore_read memory kdm_slots stored).0 ≡ ok record_bytes)
    × IsDelegated memory toy_crypto toy_signatures
        (toy_counter 1)
        kdm_slots
        record_bytes
        (replicate 32 1)
load_active_cloud_key-IsDelegated_example =
    load_active_cloud_key-IsDelegated memory toy_crypto toy_signatures (toy_counter 1) kdm_slots
      stored (replicate 32 1) provisioned loaded

evaluate_flash-no_room_example :
    ((evaluate_flash memory [] toy_crypto toy_signatures
        (toy_counter 0)
        no_store
        toy_decode
        2048
        0
        4096
        world).1
      ≡ world)
    × ((c : ℕ)
        → (evaluate_flash memory [] toy_crypto toy_signatures
            (toy_counter 0)
            no_store
            toy_decode
            2048
            0
            4096
            world).0
          ≢ ok c)
evaluate_flash-no_room_example =
    evaluate_flash-no_room memory [] toy_crypto toy_signatures (toy_counter 0) no_store toy_decode
      2048 0 4096 world (omega arith)
