-- ===== src/Delta/Tests.antt =====
-- A stream of one run of zeroes, applied in a memory, and instances of the theorems.
use toob_loader.Common.{
  ℕ, zero, suc, ◌+◌, ◌-◌, ◌/◌, ◌^◌, ◌≤◌, ◌<◌, ◌≡◌, refl, sym, ap, ◌∙◌, arith, Bool, false, ◌&&◌,
}
use toob_loader.Common.{
  ltb, leb, ◌==◌, if◌then◌else◌, List, [], ◌∷◌, length, get_or, replicate, Option, none, some,
}
use toob_loader.Status.{ok_status, not_found, Result, ok, err}
use toob_loader.Hal.{FlashHal, CryptoHal, ReadsWhole}
use toob_loader.Journal.{Journal}
use toob_loader.Journal.Append.{append}
use toob_loader.Delta.{Setup, Vm, Decoder}
use toob_loader.Delta.Apply.{
  delta_apply, apply_stream, layout, check_header, run_stream, start_at, resume_from,
  verify_ghost_base, base_pieces, run_loop, fetch, execute_instr, flush_at_end, finish_stream,
  resolve_target,
}
use toob_loader.Delta.Produce.{
  produce_copy_or_zero, produce_loop, produce_round, round_step, smaller, source_bytes, skip_step,
  flush_if_full, drain_decoder, drain_loop, make_room, poll_once,
}
use toob_loader.Delta.Flush.{
  emit_flush, pad_of, flush_bytes, write_out, checkpoint, commit_loop, size_at, erase_ahead,
  erase_next, erase_unless_blank, move_erased_end, region_is_erased, verify_readback,
}
use toob_loader.Journal.{same_bytes}
use toob_loader.Journal.Wire.{is_fully_erased}
use toob_loader.Crc32
use toob_loader.Delta.Confined.{IsConfined}
use toob_loader.Delta.Producing.{PollsWithin}
use toob_loader.Delta.Delivered.{delta_apply-confined, delta_apply_complete, Delivered, Holds}

-- A flash of sectors of 256 bytes, as a function of the address.
abbrev Cells : Type 0
Cells = ℕ → ℕ

abbrev cells : Cells → ℕ → ℕ → List ℕ
cells s a zero = []
cells s a (suc n) = s a ∷ cells s (a + 1) n

length-cells : (s : Cells) (a n : ℕ) → length (cells s a n) ≡ n
length-cells s a zero = refl
length-cells s a (suc n) = ap suc (length-cells s (a + 1) n)

abbrev cell_flash : FlashHal Cells
cell_flash = record {
  read = λ s a n. ok (cells s a n);
  write = λ s a bs.
      (ok_status, λ i. if leb a i && ltb i (a + length bs) then get_or bs (i - a) 0 else s i);
  erase_sector = λ s a. (ok_status, λ i. if i / 256 == a / 256 then 255 else s i);
  max_sector_size = 256;
  max_erase_cycles = 0;
  write_align = 8;
  erased_value = 255;
  erase_time_us_max = 0;
  write_time_us_page = 0;
  get_supply_mv = none;
}

ok_inj : {xs ys : List ℕ} → ok xs ≡ ok ys → xs ≡ ys
ok_inj h = cc

cells-ReadsWhole : ReadsWhole cell_flash
cells-ReadsWhole = record {
  read_whole = λ s a n xs h. ap length (ok_inj (sym h)) ∙ length-cells s a n;
}

-- A decoder that has nothing to give.
abbrev silent : Decoder (Unit {0})
silent = record {
  fresh_decoder = tt;
  input_size = 32;
  sink = λ d bs. none;
  poll = λ d space. some (false, [], d);
  end_input = λ d. d;
}

silent-fits :
    (d d' : Unit {0}) (space : ℕ) (more : Bool) (bs : List ℕ)
    → ◌≡◌ {A = Option (Bool × List ℕ × Unit {0})} (some (false, [], d)) (some (more, bs, d'))
    → length bs ≤ space
silent-fits d d' space more bs h = let e : [] ≡ bs = cc h in omega (arith, ap length e)

silent-PollsWithin : PollsWithin silent
silent-PollsWithin = record { poll_fits = silent-fits }

abbrev zero_hash : CryptoHal
zero_hash = record {
  read_chip_uid = err not_found;
  read_pubkey = λ i. err not_found;
  hash = λ pieces. ok (replicate 32 0);
}

-- A header for eight bytes, BZERO of eight bytes, and EOF.
abbrev stream : List ℕ
stream =
    84
    ∷ (68
        ∷ (83
            ∷ (49
                ∷ (8
                    ∷ (0
                        ∷ (0
                            ∷ (0
                                ∷ (0
                                    ∷ (0
                                        ∷ (0
                                            ∷ (0
                                                ∷ (0
                                                    ∷ (0
                                                        ∷ (0
                                                            ∷ (0
                                                            ∷ (0
                                                            ∷ (0
                                                            ∷ (0
                                                            ∷ (0
                                                            ∷ (64
                                                            ∷ (0
                                                            ∷ (0
                                                            ∷ (0
                                                            ∷ (2
                                                            ∷ (0
                                                            ∷ (0
                                                            ∷ (0
                                                            ∷ (154
                                                            ∷ (203
                                                            ∷ (145
                                                            ∷ (179
                                                            ∷ (90
                                                            ∷ (90
                                                            ∷ (90
                                                            ∷ (90
                                                            ∷ (8
                                                            ∷ (0
                                                            ∷ (0
                                                            ∷ (0
                                                            ∷ (0
                                                            ∷ (0
                                                            ∷ (0
                                                            ∷ (0
                                                            ∷ (126
                                                            ∷ (55
                                                            ∷ (39
                                                            ∷ (173
                                                            ∷ (15
                                                            ∷ (15
                                                            ∷ (15
                                                            ∷ (15
                                                            ∷ (0
                                                            ∷ (0
                                                            ∷ (0
                                                            ∷ (0
                                                            ∷ (0
                                                            ∷ (0
                                                            ∷ (0
                                                            ∷ (0 ∷ (132 ∷ (57 ∷ (11 ∷ (180 ∷ [])))))
                                                            ))))))))))))))))))))))))))))))))))))))))
                                                            ))))))))))))))))))

-- The slot from 512 is blank, the stream stands at 1024, and byte 2000 is in use.
abbrev before : Cells
before i =
    if i == 2000 then 9 else if leb 1024 i && ltb i 1088 then get_or stream (i - 1024) 0 else 255

abbrev plan : Setup
plan = record {
  dest_addr = 512;
  base_addr = 768;
  delta_addr = 1024;
  source_size = 0;
  target_size = 0;
  write_cap = 0;
  read_cap = 0;
  delta_max_size = 64;
  max_sector = 4096;
}

abbrev no_journal : Journal
no_journal = record {
  active_index = 0;
  sequence_id = 0;
  erase_count = 0;
  tmr = [];
  write_offset = 0;
  key = none;
  initialized = false;
}

-- Byte 2000 is as it was, and the journal has not been started.
abbrev Untouched : Journal → Cells → Type 0
Untouched j s = (j.initialized ≡ false) × (s 2000 ≡ 9)

append-Untouched :
    (j : Journal) (s : Cells) (entry : List ℕ)
    → Untouched j s
    → Untouched
        (append cell_flash [] zero_hash.hash j s entry).1
        (append cell_flash [] zero_hash.hash j s entry).2
unfolding append
append-Untouched j s entry h = rw (h.0) (refl, h.1)

confined : IsConfined cell_flash [] zero_hash Untouched 512 776
confined = record {
  write_keeps = λ j s a bs low high h. (h.0, ground arith);
  erase_keeps = λ j s a low high h. (h.0, ground arith);
  append_keeps = append-Untouched;
}

slot_fits : 512 + 256 < 2 ^ 32
slot_fits = omega arith

abbrev outcome : Result (Unit {0}) × Vm Cells (Unit {0})
outcome =
    delta_apply cell_flash [] zero_hash (λ a. ok 256) silent plan 256 64 1024 64 no_journal before
      (replicate 64 0)

succeeded : outcome.0 ≡ ok tt
unfolding delta_apply apply_stream layout check_header run_stream start_at resume_from
    verify_ghost_base base_pieces run_loop fetch execute_instr flush_at_end finish_stream
    resolve_target produce_copy_or_zero produce_loop produce_round round_step smaller source_bytes
    skip_step flush_if_full drain_decoder drain_loop make_room poll_once emit_flush pad_of
    flush_bytes write_out checkpoint commit_loop size_at erase_ahead erase_next erase_unless_blank
    move_erased_end region_is_erased verify_readback same_bytes is_fully_erased Crc32.compute append
succeeded = refl

delta_apply-confined_example :
    Holds cell_flash [] zero_hash
      (λ a. ok 256)
      silent
      plan
      256
      64
      Untouched
      confined
      cells-ReadsWhole
      silent-PollsWithin
      slot_fits
      outcome
delta_apply-confined_example =
    delta_apply-confined cell_flash [] zero_hash (λ a. ok 256) silent plan 256 64 Untouched confined
      cells-ReadsWhole silent-PollsWithin slot_fits 1024 64 no_journal before (replicate 64 0)
      (omega arith) (refl, refl)

delta_apply_complete_example :
    Delivered cell_flash [] zero_hash
      (λ a. ok 256)
      silent
      plan
      256
      64
      Untouched
      confined
      cells-ReadsWhole
      silent-PollsWithin
      slot_fits
      before
      outcome.1
delta_apply_complete_example =
    delta_apply_complete cell_flash [] zero_hash (λ a. ok 256) silent plan 256 64 Untouched confined
      cells-ReadsWhole silent-PollsWithin slot_fits 1024 64 no_journal before (replicate 64 0)
      outcome.1 (omega arith) (refl, refl) (ap (λ r. (r, outcome.1)) succeeded)
