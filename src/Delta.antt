-- ===== src/Delta.antt =====
-- toobloader/core/boot_delta.c and its header: the machine that applies a delta stream. Its write buffer
-- is the list of the bytes in front of `write_pos`; the decoder (heatshrink) is a parameter.
pub mod Flush
pub mod Produce
pub mod Apply
pub mod Confined
pub mod Running
pub mod Producing
pub mod Draining
pub mod Applied
pub mod Delivered
mod Tests
use toob_loader.Common.{ℕ, ◌+◌, ◌-◌, ◌*◌, ◌/◌, ◌%◌, ◌^◌, Bool, true, false, not, ◌&&◌, ◌||◌}
use toob_loader.Common.{ltb, leb, ◌==◌, if◌then◌else◌, List, [], ◌∷◌, take, drop, Option}
use toob_loader.Status.{Result}
use toob_loader.Hal.{FlashHal, CryptoHal}
use toob_loader.Journal.{Journal, Sector}
use toob_loader.Tbm1.Layout.{u32_at}
use toob_loader.Crc32

-- `TOOB_TDS_MAGIC` and the opcodes
abbrev pub tds_magic : ℕ
tds_magic = 0x31534454

abbrev pub op_copy_base : ℕ
op_copy_base = 0xC0C0C0C0

abbrev pub op_insert_lit : ℕ
op_insert_lit = 0x1A1A1A1A

abbrev pub op_bzero : ℕ
op_bzero = 0x5A5A5A5A

abbrev pub op_eof : ℕ
op_eof = 0x0F0F0F0F

-- `sizeof(toob_tds_header_t)` and `sizeof(toob_tds_instr_t)`
abbrev pub tds_header_size : ℕ
tds_header_size = 32

abbrev pub tds_instr_size : ℕ
tds_instr_size = 16

-- `toob_tds_header_t`
pub record TdsHeader : Type 0 where
  pub tds_magic_field : ℕ
  pub expected_target_size : ℕ
  pub base_fingerprint : List ℕ
  pub base_size : ℕ
  pub literal_block_offset : ℕ
  pub instr_count : ℕ
  pub header_crc32 : ℕ

abbrev pub tds_header_of : List ℕ → TdsHeader
tds_header_of bs = record {
  tds_magic_field = u32_at bs 0;
  expected_target_size = u32_at bs 4;
  base_fingerprint = take 8 (drop 8 bs);
  base_size = u32_at bs 16;
  literal_block_offset = u32_at bs 20;
  instr_count = u32_at bs 24;
  header_crc32 = u32_at bs 28;
}

-- `toob_tds_instr_t`
pub record TdsInstr : Type 0 where
  pub opcode : ℕ
  pub op_length : ℕ
  pub op_offset : ℕ
  pub op_crc32 : ℕ

abbrev pub tds_instr_of : List ℕ → TdsInstr
tds_instr_of bs = record {
  opcode = u32_at bs 0;
  op_length = u32_at bs 4;
  op_offset = u32_at bs 8;
  op_crc32 = u32_at bs 12;
}

-- The decoder with the state `D`. `sink` takes a part of what it is offered and says how much, `poll`
-- gives at most as many bytes as there is room for, and says whether there may be more; `none` is one
-- of its errors.
pub record Decoder (D : Type 0) : Type 0 where
  pub fresh_decoder : D
  pub input_size : ℕ
  pub sink : D → List ℕ → Option (ℕ × D)
  pub poll : D → ℕ → Option (Bool × List ℕ × D)
  pub end_input : D → D

-- `sdvm_t`, the members that do not change, with the geometry of the build.
pub record Setup : Type 0 where
  pub dest_addr : ℕ
  pub base_addr : ℕ
  pub delta_addr : ℕ
  pub source_size : ℕ
  pub target_size : ℕ
  pub write_cap : ℕ
  pub read_cap : ℕ
  pub delta_max_size : ℕ
  pub max_sector : ℕ

-- `sdvm_t`, the members that change, with the hardware, the journal and the open transaction.
pub record Vm (S D : Type 0) : Type 0 where
  pub hw : S
  pub journal : Journal
  pub txn : List ℕ
  pub decoder : D
  pub buf : List ℕ
  pub target_off : ℕ
  pub flushed_off : ℕ
  pub committed_off : ℕ
  pub checkpoint_off : ℕ
  pub erased_end : ℕ
