-- ===== src/Tbm1/Layout.antt =====
-- toobloader/core/include/boot_tbm1.h: the packed structures of a TBM1 manifest, read from the bytes
-- of a little-endian machine, and the constants of the format.
use toob_loader.Common.{ℕ, zero, suc, ◌+◌, ◌-◌, ◌*◌, List, [], ◌∷◌, get_or, ltb, ◌==◌}
use toob_loader.Common.{Option, none, some, if◌then◌else◌}

abbrev pub u8_at : List ℕ → ℕ → ℕ
u8_at bs o = get_or bs o 0

abbrev pub u16_at : List ℕ → ℕ → ℕ
u16_at bs o = u8_at bs o + 256 * u8_at bs (o + 1)

abbrev pub u32_at : List ℕ → ℕ → ℕ
u32_at bs o = u16_at bs o + 65536 * u16_at bs (o + 2)

abbrev pub magic : ℕ
magic = 0x314D4254

abbrev pub fixed_len : ℕ
fixed_len = 512

abbrev pub sig_len : ℕ
sig_len = 64

abbrev pub max_images : ℕ
max_images = 4

abbrev pub version_major : ℕ
version_major = 2

abbrev pub version_minor : ℕ
version_minor = 0

-- `TBM1_CRC_LEN`
abbrev pub crc_len : ℕ
crc_len = 508

-- `tbm1_region_t`
pub record Region : Type 0 where
  pub region_id : ℕ
  pub off : ℕ
  pub len : ℕ

-- `tbm1_image_desc_t`, the fields that validation reads
pub record Image : Type 0 where
  pub target_slot : ℕ
  pub compression_alg : ℕ
  pub delta_alg : ℕ
  pub data_off : ℕ
  pub stored_size : ℕ
  pub installed_size : ℕ
  pub chunk_size : ℕ
  pub num_chunks : ℕ

-- `tbm1_header_t`, the fields that validation reads
pub record Header : Type 0 where
  pub header_magic : ℕ
  pub header_version : ℕ
  pub header_fixed_len : ℕ
  pub total_len : ℕ
  pub flags_critical : ℕ
  pub product_id : ℕ
  pub hw_rev_min : ℕ
  pub hw_rev_max : ℕ
  pub key_index : ℕ
  pub image_count : ℕ
  pub min_reader_major : ℕ
  pub min_reader_minor : ℕ
  pub regions : List Region
  pub images : List Image
  pub fixed_crc32 : ℕ

unfoldable pub region_at : List ℕ → ℕ → Region
region_at bs o = record {
  region_id = u16_at bs o;
  off = u32_at bs (o + 4);
  len = u32_at bs (o + 8);
}

unfoldable pub image_at : List ℕ → ℕ → Image
image_at bs o = record {
  target_slot = u8_at bs (o + 1);
  compression_alg = u8_at bs (o + 2);
  delta_alg = u8_at bs (o + 3);
  data_off = u32_at bs (o + 4);
  stored_size = u32_at bs (o + 8);
  installed_size = u32_at bs (o + 12);
  chunk_size = u32_at bs (o + 16);
  num_chunks = u32_at bs (o + 20);
}

-- `n` structures of `size` bytes each, from offset `o` on.
unfoldable pub table {ℓ} : {A : Type ℓ} → (ℕ → A) → ℕ → ℕ → ℕ → List A
table at size o zero = []
table at size o (suc n) = at o ∷ table at size (o + size) n

-- `(const tbm1_header_t *)buf`
unfoldable pub header_of : List ℕ → Header
unfolding region_at image_at table
header_of bs = record {
  header_magic = u32_at bs 0;
  header_version = u8_at bs 4;
  header_fixed_len = u16_at bs 6;
  total_len = u32_at bs 8;
  flags_critical = u16_at bs 12;
  product_id = u16_at bs 18;
  hw_rev_min = u16_at bs 20;
  hw_rev_max = u16_at bs 22;
  key_index = u8_at bs 24;
  image_count = u8_at bs 25;
  min_reader_major = u16_at bs 28;
  min_reader_minor = u16_at bs 30;
  regions = table (region_at bs) 12 88 8;
  images = table (image_at bs) 44 184 4;
  fixed_crc32 = u32_at bs 508;
}

-- `tbm1_signed_len`
unfoldable pub signed_len : Header → ℕ
signed_len h = if ltb h.total_len (fixed_len + sig_len) then 0 else h.total_len - sig_len

-- `TBM1_REGION_NONE` and `TBM1_REGION_CHUNK_HASHES`
abbrev pub region_none : ℕ
region_none = 0

abbrev pub region_chunk_hashes : ℕ
region_chunk_hashes = 1

unfoldable pub find_in : List Region → ℕ → Option Region
find_in [] id = none
find_in (r ∷ rs) id = if r.region_id == id then some r else find_in rs id

-- `tbm1_find_region`
unfoldable pub find_region : Header → ℕ → Option Region
unfolding find_in
find_region h id = if id == region_none then none else find_in h.regions id
