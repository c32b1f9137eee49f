-- ===== src/Tbm1.antt =====
-- toobloader/core/boot_tbm1.c: the validation of a TBM1 manifest.
mod Tests
pub mod Layout
pub mod Regions
pub mod Images
pub mod Accepted
use toob_loader.Common.{
  ℕ, zero, suc, ◌+◌, ◌-◌, ◌*◌, ◌/◌, ◌%◌, ◌^◌, Bool, true, false, not, ◌&&◌, ◌||◌,
}
use toob_loader.Common.{
  ltb, leb, ◌==◌, if◌then◌else◌, bit_and, bit_or, List, [], ◌∷◌, ◌++◌, take, drop,
}
use toob_loader.Common.{Option, none, some, ◌≡◌, refl}
use toob_loader.Status.{
  Status, ok_status, invalid_arg, manifest_corrupt, manifest_version, manifest_product,
}
use toob_loader.Crc32
use Layout.{
  Region, Image, Header, header_of, signed_len, find_region, region_none, region_chunk_hashes,
}
use Layout.{magic, fixed_len, sig_len, max_images, version_major, version_minor, crc_len}

-- `tbm1_reject_t`, `TBM1_OK` apart
pub data Reject : Type 0 where
  bad_magic bad_fixed_len bad_version bad_total_len bad_align bad_crc bad_crit_flag : Reject
  bad_reader_version bad_image_count bad_key_index bad_hw_compat bad_chunk_math : Reject
  bad_image_field bad_region_bounds bad_region_order bad_region_dup bad_chunkhash_len : Reject
  bad_region_align : Reject

-- A verdict: `TBM1_OK` with what the out parameter holds, or a reject code.
pub data Verdict {ℓ} (A : Type ℓ) : Type ℓ where
  accept : A → Verdict A
  reject : Reject → Verdict A

infixl 5 ◌>>=◌ ◌>>◌
abbrev pub ◌>>=◌ {ℓ κ} : {A : Type ℓ} {B : Type κ} → Verdict A → (A → Verdict B) → Verdict B
accept a >>= f = f a
reject e >>= f = reject e

abbrev pub ◌>>◌ {ℓ} : {B : Type ℓ} → Verdict (Unit {0}) → Verdict B → Verdict B
m >> k = m >>= λ _. k

-- Inversion of two steps that both accept.
pub >>-eq-accept {ℓ} :
    {A : Type ℓ} (m : Verdict (Unit {0})) (k : Verdict A) {a : A}
    → (m >> k) ≡ accept a
    → (m ≡ accept tt) × (k ≡ accept a)
>>-eq-accept (accept x) k h = (refl, h)
>>-eq-accept (reject e) k h = cc

pub >>=-eq-accept {ℓ κ} :
    {A : Type ℓ} {B : Type κ} (m : Verdict A) (f : A → Verdict B) {b : B}
    → (m >>= f) ≡ accept b
    → (a : A) × (m ≡ accept a) × (f a ≡ accept b)
>>=-eq-accept (accept a) f h = (a, refl, h)
>>=-eq-accept (reject e) f h = cc

-- `if (test) return e;`
abbrev pub refuse : Bool → Reject → Verdict (Unit {0})
refuse true e = reject e
refuse false e = accept tt

-- The compile-time identity of the device: `TOOB_DEVICE_PRODUCT_ID`, `TOOB_DEVICE_HW_REV` and
-- `TOOB_DEVICE_KEY_SLOTS`.
pub record Device : Type 0 where
  pub device_product_id : ℕ
  pub device_hw_rev : ℕ
  pub key_slots : ℕ

-- `ceil_div_u32`, for a divisor that is not 0
unfoldable pub ceil_div_u32 : ℕ → ℕ → ℕ
ceil_div_u32 a b = (a / b + (if a % b == 0 then 0 else 1)) % 2 ^ 32

-- `tbm1_precheck` on the buffer `buf` at the address `addr`
unfoldable pub precheck : ℕ → List ℕ → ℕ → Verdict (Unit {0})
precheck addr buf staging_cap = do
  let h = header_of buf
  refuse (addr == 0 || not (bit_and addr 3 == 0)) bad_align
  refuse (ltb staging_cap fixed_len) bad_total_len
  refuse (not (h.header_magic == magic)) bad_magic
  refuse (not (h.header_fixed_len == fixed_len)) bad_fixed_len
  refuse (not (h.header_version == version_major)) bad_version
  refuse (ltb h.total_len (fixed_len + sig_len)) bad_total_len
  refuse (ltb staging_cap h.total_len) bad_total_len
  refuse (not (bit_and h.flags_critical 0xFFFE == 0)) bad_crit_flag
  refuse
      (ltb version_major h.min_reader_major
        || (h.min_reader_major == version_major && ltb version_minor h.min_reader_minor))
      bad_reader_version
  refuse (not (Crc32.compute (take crc_len buf) == h.fixed_crc32)) bad_crc

-- The checks on one region in use of `tbm1_validate_regions`.
unfoldable pub check_region : ℕ → Region → ℕ → ℕ → Verdict (Unit {0})
check_region sig_start r prev_end seen_ids = do
  refuse (ltb r.region_id 16 && not (bit_and seen_ids (2 ^ r.region_id) == 0)) bad_region_dup
  refuse (ltb sig_start r.off) bad_region_bounds
  refuse (ltb (sig_start - r.off) r.len) bad_region_bounds
  refuse (ltb r.off prev_end) bad_region_order
  refuse (not (bit_and r.off 7 == 0)) bad_region_align

-- `seen_ids |= bit`, for an identifier below 16
unfoldable pub mark_seen : ℕ → ℕ → ℕ
mark_seen seen_ids id = if ltb id 16 then bit_or seen_ids (2 ^ id) else seen_ids

-- The loop of `tbm1_validate_regions`.
unfoldable pub regions_loop : ℕ → List Region → ℕ → ℕ → Verdict (Unit {0})
unfolding check_region mark_seen
regions_loop sig_start [] prev_end seen_ids = accept tt
regions_loop sig_start (r ∷ rs) prev_end seen_ids =
    let skipped = regions_loop sig_start rs prev_end seen_ids in
    let rest =
      regions_loop sig_start rs ((r.off + r.len) % 2 ^ 32) (mark_seen seen_ids r.region_id) in
    if r.region_id == region_none
    then skipped
    else check_region sig_start r prev_end seen_ids >> rest

-- `tbm1_validate_regions`
unfoldable pub validate_regions : Header → Verdict (Unit {0})
unfolding signed_len
validate_regions h = do
  refuse (signed_len h == 0) bad_total_len
  regions_loop (signed_len h) h.regions fixed_len 0

-- The checks on one image of `tbm1_validate_images`.
unfoldable pub check_image : Image → ℕ → Verdict (Unit {0})
unfolding ceil_div_u32
check_image d staging_cap = do
  refuse (d.chunk_size == 0) bad_chunk_math
  refuse (not (d.num_chunks == ceil_div_u32 d.installed_size d.chunk_size)) bad_chunk_math
  refuse (ltb 3 d.target_slot) bad_image_field
  refuse (ltb 2 d.compression_alg) bad_image_field
  refuse (ltb 2 d.delta_alg) bad_image_field
  refuse (leb staging_cap d.data_off) bad_image_field
  refuse (ltb (staging_cap - d.data_off) d.stored_size) bad_image_field

-- `out_off[i] = off`, in front of what the later rounds write
unfoldable pub put_offset : ℕ → Verdict (List ℕ × ℕ) → Verdict (List ℕ × ℕ)
put_offset off (accept (offs, acc)) = accept (off ∷ offs, acc)
put_offset off (reject e) = reject e

-- The loop of `tbm1_validate_images` over the images in use: `out_off` and the final `acc`.
unfoldable pub images_loop : ℕ → Region → List Image → ℕ → Verdict (List ℕ × ℕ)
unfolding put_offset
images_loop staging_cap chunks [] acc = accept ([], acc)
images_loop staging_cap chunks (d ∷ ds) acc =
    let later = images_loop staging_cap chunks ds ((acc + d.num_chunks * 32) % 2 ^ 64) in
    check_image d staging_cap >> put_offset ((chunks.off + acc % 2 ^ 32) % 2 ^ 32) later

-- The end of `tbm1_validate_images`, once the region of the chunk hashes is found.
unfoldable pub partition : Header → ℕ → Option Region → Verdict (List ℕ)
unfolding images_loop
partition h staging_cap none = reject bad_chunkhash_len
partition h staging_cap (some chunks) = do
  (offs, acc) ← images_loop staging_cap chunks (take h.image_count h.images) 0
  refuse (not (acc == chunks.len)) bad_chunkhash_len
  accept offs

module _ (device : Device) where
  -- `tbm1_validate_images`: the offsets that it writes to `out_off`
  unfoldable pub validate_images : Header → ℕ → Verdict (List ℕ)
  unfolding find_region partition
  validate_images h staging_cap = do
    refuse (ltb h.image_count 1 || ltb max_images h.image_count) bad_image_count
    refuse (leb device.key_slots h.key_index) bad_key_index
    refuse
        (not (device.device_product_id == 0xFFFF) && not (h.product_id == device.device_product_id))
        bad_hw_compat
    refuse
        (not (device.device_product_id == 0xFFFF)
          && (ltb device.device_hw_rev h.hw_rev_min || ltb h.hw_rev_max device.device_hw_rev))
        bad_hw_compat
    partition h staging_cap (find_region h region_chunk_hashes)

  -- `tbm1_validate`
  unfoldable pub validate : ℕ → List ℕ → ℕ → ℕ → Verdict (List ℕ)
  validate addr buf manifest_cap staging_cap = do
    precheck addr buf manifest_cap
    validate_regions (header_of buf)
    validate_images (header_of buf) staging_cap

-- `tbm1_reject_to_boot_status`, with `none` for `TBM1_OK`
unfoldable pub to_boot_status : Option Reject → Status
to_boot_status none = ok_status
to_boot_status (some bad_crc) = manifest_corrupt
to_boot_status (some bad_hw_compat) = manifest_product
to_boot_status (some bad_version) = manifest_version
to_boot_status (some bad_crit_flag) = manifest_version
to_boot_status (some bad_reader_version) = manifest_version
to_boot_status (some _) = invalid_arg
