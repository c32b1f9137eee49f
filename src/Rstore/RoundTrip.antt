-- ===== src/Rstore/RoundTrip.antt =====
-- A slot that was written is read back as it was written.
use toob_loader.Common.{ℕ, ◌^◌, ◌<◌, ◌≡◌, refl}
use toob_loader.Common.{List, ◌++◌, length, All, arith, some}
use toob_loader.Common.{==_refl, take-length}
use toob_loader.Crc32
use toob_loader.Crc32.Bounds.{compute_small}
use toob_loader.Journal.Wire.{u32_bytes}
use toob_loader.Journal.Bytes.{u32_bytes-All, u32_at-u32_bytes}
use toob_loader.Rstore.{Desc, parse_slot, slot_bytes, crc_cleared}

-- The bytes that a header and a record have their CRC over.
abbrev covered : Desc → ℕ → ℕ → List ℕ → List ℕ
covered desc seq erases content =
    (u32_bytes desc.record_magic ++ (u32_bytes seq ++ u32_bytes erases)) ++ (u32_bytes 0 ++ content)

covered-All :
    (desc : Desc) (seq erases : ℕ) (content : List ℕ)
    → All (λ x. x < 256) content
    → All (λ x. x < 256) (covered desc seq erases content)
covered-All desc seq erases content h =
    u32_bytes-All desc.record_magic
      (u32_bytes seq ++ (u32_bytes erases ++ (u32_bytes 0 ++ content)))
      (u32_bytes-All seq (u32_bytes erases ++ (u32_bytes 0 ++ content))
        (u32_bytes-All erases (u32_bytes 0 ++ content) (u32_bytes-All 0 content h)))

-- A record of bytes, of the size that the descriptor gives, goes into a slot and out of it unchanged,
-- with its sequence number and its erase count.
pub parse_slot-slot_bytes :
    (desc : Desc) (seq erases : ℕ) (content : List ℕ)
    → desc.record_magic < 2 ^ 32
    → seq < 2 ^ 32
    → erases < 2 ^ 32
    → length content ≡ desc.record_size
    → All (λ x. x < 256) content
    → parse_slot desc (slot_bytes desc seq erases content)
      ≡ some record { copy_seq = seq; copy_erases = erases; content = content }
unfolding parse_slot slot_bytes crc_cleared
parse_slot-slot_bytes desc seq erases content hm hs he len bytes =
    let c = Crc32.compute (covered desc seq erases content) in
    let small =
      compute_small (covered desc seq erases content) (covered-All desc seq erases content bytes) in
    rw
      (
        u32_at-u32_bytes desc.record_magic hm,
        ==_refl desc.record_magic,
        u32_at-u32_bytes c small,
        ==_refl c,
        u32_at-u32_bytes seq hs,
        u32_at-u32_bytes erases he,
        take-length desc.record_size content (omega arith),
      )
      refl
