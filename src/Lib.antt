-- ===== src/Lib.antt =====
-- A verification library for the core of the Toob loader, a secure boot loader in C.
--
-- The parts modelled, and how they work together. The loader reads a manifest from the staging area
-- and validates its structure (Tbm1) before any field is trusted, and the image's chunks against the
-- hashes of the manifest (Merkle); it keeps its transactions and its redundant state in a log over
-- flash sectors (Journal), keyed by the chip (Identity), and other records in a store of several
-- sectors (Rstore); all of them trust bytes by a CRC (Crc32). Requests of the operating system come in
-- by a mailbox (Mailbox), and a table of intents decides what follows (State). Flash is changed by
-- planned effects (Effect), by which a revert restores the application slot (Rollback), and by a
-- machine that builds an image out of a patch and a base image (Delta). The signatures of a manifest
-- are checked in one place (Verify), commands of the cloud in another (Cloud), and a driver may
-- confirm a boot (Confirm). Stage 0 finds the bank it starts in the same log (Stage0). The serial
-- rescue exchanges frames over a console (Cobs).
--
--
--   Status  common/include/boot_types.h: boot_status_t as Status, and Result for calls that fill an
--           out parameter.
--   Hal     common/include/boot_hal.h: flash_hal_t as the record FlashHal over a state of the
--           hardware, crypto_hal_t as CryptoHal, and slot_caps_t of common/include/boot_slot_caps.h as
--           SlotCaps; further members of crypto_hal_t as SignatureHal and CounterHal, and
--           confirm_hal_t as ConfirmHal. The drivers are not in the repository and stay a parameter everywhere.
--   Cobs    toobloader/core/utils/boot_cobs.c: send_frame gives the bytes that putchar is called
--           with, recv_frame reads a list of what getchar brings, decode_in_place keeps the buffer
--           as a list with write_idx and read_idx. Cobs.Reference is a decoder on lists, Cobs.Blocks
--           and Cobs.RoundTrip are about the sender's blocks, Cobs.InPlace relates the in-place
--           decoder to the reference, Cobs.Wire and Cobs.Lost are about the whole way.
--   Crc32   toobloader/core/utils/boot_crc32.c: update, compute, fill, flash_stream. Crc32.Stream
--           relates them.
--   Tbm1    toobloader/core/boot_tbm1.c and its header: Tbm1.Layout reads the packed structures out
--           of bytes, precheck, validate_regions, validate_images and validate are the functions
--           named tbm1_*, with Verdict for tbm1_reject_t and the offsets of out_off as a value.
--           Tbm1.Regions, Tbm1.Images and Tbm1.Accepted are about them.
--   Journal toobloader/core/boot_journal.c: the static variables are the record Journal; the arrays of
--           sectors are a list; a function takes the state and gives the new one with its status.
--           Journal.Intent and Journal.Wire hold common/include/toob_wal_wire.h, Journal.Append is
--           boot_journal_append, Journal.UpdateTmr is boot_journal_update_tmr,
--           Journal.Reconstruct is boot_journal_reconstruct_txn; read_header, find_sector_by_seq,
--           smart_erase_sector, rotate_to_sector, best_sector and scan_for_frontier stand in Journal.
--           Journal.Init is boot_journal_init, with Start for its return or its halt; Journal.Migrate
--           has migrate_v1_tmr and upgrade_tmr_payload, Journal.Fields the fields of the TMR payload,
--           which is a list of 112 bytes. The other children are proofs.
--   Identity toobloader/core/utils/boot_identity.c: kdf_core and the two derivations.
--   Rstore  toobloader/core/boot_rstore.c: a slot read is an Option of a Copy; resolve is the vote of
--           boot_rstore_read, rstore_read and rstore_write are the two entry points.
--   Mailbox toobloader/core/boot_mailbox.c: a record is its 32 bytes; consume is
--           boot_mailbox_consume.
--   Merkle  toobloader/core/utils/boot_merkle.c: check_arguments has the guards, chunk_loop the loop
--           of boot_merkle_verify_stream.
--   Effect  toobloader/core/boot_effect.c: execute is boot_effect_execute, erase_safe the
--           boot_swap_erase_safe of toobloader/core/boot_swap.c. Effect.Admit has
--           boot_effect_admit_or_defer, with the two slots as parameters.
--   Rollback toobloader/core/boot_rollback.c: verify_svn, evaluate_os, plan_chunk and trigger_revert.
--   State   toobloader/core/boot_state.c: intent_table and evaluate_transition, over a Machine of the open
--           transaction, the TMR payload, the journal and the hardware; is_authorized is the test of a
--           confirmation in boot_state_run; State.Update has the error table.
--   Stage0  toobloader/stage0/stage0_boot_pointer.c and stage0_tentative.c beside it. Stage0.Boot has
--           stage0_main.c with its hash, its key index and its signature: stage0_main over the
--           Readings of one start. A jump is a value. Stage0.Booted, Stage0.Signed, Stage0.Voted and
--           Stage0.Starts are proofs.
--   Flow    functions that change a state and may fail, with the rules by which a property of the
--           state goes through their composition.
--   Verify  toobloader/core/boot_verify.c: verify_manifest_envelope and its steps in their order.
--   Confirm toobloader/core/boot_confirm.c: evaluate and clear_confirm.
--   Cloud   toobloader/core/boot_cloud_cmd.c: evaluate_buffer and evaluate_flash over a World of the
--           journal and the hardware; load_active_cloud_key is the key with its fallback.
--   Delta   toobloader/core/boot_delta.c: Setup holds the members of sdvm_t that stay, Vm the ones
--           that change. Delta.Flush is the write combiner, Delta.Produce the producers, Delta.Apply
--           the header, the loop and boot_delta_apply; the other children are proofs. The heatshrink
--           decoder is a parameter, and so is the CBOR decoder of Cloud.
--
-- Machine integers are natural numbers with the wrap-around written out; size_t and uintptr_t have 64 bits, bytes
-- are numbers below 256 where a theorem needs it. Memory is little-endian.
--
-- Loops run on fuel. send_blocks and decode_loop consume a byte of their input in each round, so that
-- its length is enough; stream_loop moves on by at least one byte; needs_erase and frontier_loop take
-- the size of the sector; scan_back takes the offset it starts from; sectors_back takes one round for
-- each sector, as the code does. recv_loop is a recursion on the console's input. is_dirty,
-- erase_loop and revert_loop have the bounds that the code itself sets; copy_loop, scan_dirty and
-- identical_loop move on by a byte at least with an arena that is not empty, so that the length is
-- enough; chunk_loop takes the number of chunks. In Delta produce_loop has one round more than the
-- bytes it puts out and drain_loop two more than the target has; insert_loop, region_is_erased,
-- verify_readback, erase_ahead, commit_loop and walk_sectors move on by a byte at least; run_loop has
-- the bound of the code. Out of fuel these are stuck, an outcome that the code does not have.
-- hash_pieces of Stage0.Boot takes the length, as a piece has a byte at least.
--
-- Not modelled: the tests for null pointers and missing drivers, watchdog kicks, the zeroing of
-- buffers that nothing reads again, and delays. BOOT_SECURE_REQUIRE is its plain test, as no fault is
-- injected; that it is a do-while loop of its own, which a break or continue inside only leaves, is
-- kept. The hash driver is a function of the segments,
-- so that a failing hash_init shows behind the reads. The two reads of the eFuse counter are
-- arguments. In Verify and Cloud the copies on the stack and the tokens of the control flow are left
-- out, as they change nothing without a fault. Left out are the transports with boot_swap_apply, the
-- flows of boot_state.c around its tables, the serial rescue around its frames, the bring-up of
-- the platform in both stages, the client libraries and the tools.
pub mod Common
pub mod Status
pub mod Hal
pub mod Flow
pub mod Cobs
pub mod Crc32
pub mod Tbm1
pub mod Identity
pub mod Journal
pub mod Rstore
pub mod Mailbox
pub mod Merkle
pub mod Effect
pub mod Rollback
pub mod Stage0
pub mod Verify
pub mod Confirm
pub mod Cloud
pub mod Delta
pub mod State
