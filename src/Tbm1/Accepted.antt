-- ===== src/Tbm1/Accepted.antt =====
-- What a manifest satisfies that `tbm1_validate` accepts.
use toob_loader.Common.{ℕ, zero, suc, ◌+◌, ◌^◌, ◌≤◌, ◌<◌, ◌≡◌, ◌≢◌, refl, ap, ◌∙◌, arith}
use toob_loader.Common.{not, ◌||◌, ltb, leb, ◌==◌}
use toob_loader.Common.{List, [], ◌∷◌, take, All, get_elem?, Option, none, some}
use toob_loader.Common.{length-take}
use toob_loader.Crc32
use toob_loader.Tbm1.{accept, refuse, >>-eq-accept, >>=-eq-accept, Device}
use toob_loader.Tbm1.{bad_chunkhash_len, bad_image_count, bad_key_index, bad_hw_compat}
use toob_loader.Tbm1.{precheck, validate_regions, images_loop, partition, validate_images, validate}
use toob_loader.Tbm1.Layout.{Region, Header, header_of, image_at, table, u8_at, u32_at}
use toob_loader.Tbm1.Layout.{
  find_region, region_chunk_hashes, region_none, crc_len, magic, max_images,
}
use toob_loader.Tbm1.Regions.{validate_regions_bounds}
use toob_loader.Tbm1.Images.{InRange, IsPartition, images_loop_lem, find_in-get, hash_offsets}

u8_small : (bs : List ℕ) (o : ℕ) → All (λ x. x < 256) bs → u8_at bs o < 256
u8_small [] o h = omega arith
u8_small (b ∷ bs) zero (hb, h) = hb
u8_small (b ∷ bs) (suc o) (hb, h) = u8_small bs o h

u32_small : (bs : List ℕ) (o : ℕ) → All (λ x. x < 256) bs → u32_at bs o < 2 ^ 32
u32_small bs o h = omega (
  arith,
  u8_small bs o h,
  u8_small bs (o + 1) h,
  u8_small bs (o + 2) h,
  u8_small bs (o + 2 + 1) h,
)

image-InRange : (bs : List ℕ) (o : ℕ) → All (λ x. x < 256) bs → InRange (image_at bs o)
unfolding image_at
image-InRange bs o h = (u32_small bs (o + 12) h, u32_small bs (o + 20) h)

All-take {ℓ κ} : {A : Type ℓ} (P : A → Type κ) (n : ℕ) (xs : List A) → All P xs → All P (take n xs)
All-take P zero xs h = tt
All-take P (suc n) [] h = tt
All-take P (suc n) (x ∷ xs) (hx, h) = (hx, All-take P n xs h)

images-InRange : (bs : List ℕ) → All (λ x. x < 256) bs → All InRange (header_of bs).images
unfolding header_of table
images-InRange bs h = (
  image-InRange bs 184 h,
  (image-InRange bs 228 h, (image-InRange bs 272 h, (image-InRange bs 316 h, tt))),
)

total_len_small : (bs : List ℕ) → All (λ x. x < 256) bs → (header_of bs).total_len < 2 ^ 32
unfolding header_of
total_len_small bs h = u32_small bs 8 h

-- The partition of an accepted header, given that the region of the hashes lies below 2 ^ 32.
partition-IsPartition :
    (h : Header) (staging : ℕ) (o : Option Region) (offs : List ℕ)
    → find_region h region_chunk_hashes ≡ o
    → All InRange h.images
    → (1 ≤ h.image_count) × (h.image_count ≤ 4)
    → ((i : ℕ) (r : Region)
        → get_elem? h.regions i ≡ some r
        → r.region_id ≢ region_none
        → r.off + r.len < 2 ^ 32)
    → partition h staging o ≡ accept offs
    → IsPartition h staging offs
unfolding partition find_region
partition-IsPartition h staging none offs f r c small e = cc
partition-IsPartition h staging (some chunks) offs f r c small e =
    let ((offs', total), run, out) =
      >>=-eq-accept (images_loop staging chunks (take h.image_count h.images) 0) _ e in
    let (i, at, id) = find_in-get h.regions region_chunk_hashes f in
    let low = small i chunks at (omega (arith, id)) in
    let (fits, last) = >>-eq-accept (refuse (not (total == chunks.len)) bad_chunkhash_len) _ out in
    let same = exact total fits in
    let (plausible, sum, starts) =
      images_loop_lem staging chunks (take h.image_count h.images) 0 offs' total
        (All-take InRange h.image_count h.images r)
        (omega (arith, c, length-take h.image_count h.images)) low (omega (arith, same)) run in
    record {
      chunks = chunks;
      index = i;
      listed = at;
      is_chunk_hashes = id;
      counted = c;
      plausible = plausible;
      starts =
          given offs' last
          ∙ starts
          ∙ ap (λ n. hash_offsets n (take h.image_count h.images)) (omega arith);
      filled = omega (arith, sum, same);
    }
  where
    exact :
        (total : ℕ)
        → refuse (not (total == chunks.len)) bad_chunkhash_len ≡ accept tt
        → total ≡ chunks.len
    exact total fits = ground arith

    given : (offs' : List ℕ) → accept offs' ≡ accept offs → offs ≡ offs'
    given offs' last = cc

images_IsPartition :
    (device : Device) (h : Header) (staging : ℕ) (offs : List ℕ)
    → All InRange h.images
    → ((i : ℕ) (r : Region)
        → get_elem? h.regions i ≡ some r
        → r.region_id ≢ region_none
        → r.off + r.len < 2 ^ 32)
    → validate_images device h staging ≡ accept offs
    → IsPartition h staging offs
unfolding validate_images
images_IsPartition device h staging offs r small e =
    let (counted, e1) =
      >>-eq-accept (refuse (ltb h.image_count 1 || ltb max_images h.image_count) bad_image_count) _
        e in
    let (_, e2) = >>-eq-accept (refuse (leb device.key_slots h.key_index) bad_key_index) _ e1 in
    let (_, e3) = >>-eq-accept (refuse _ bad_hw_compat) _ e2 in
    let (_, e4) = >>-eq-accept (refuse _ bad_hw_compat) _ e3 in
    partition-IsPartition h staging (find_region h region_chunk_hashes) offs refl r (count counted)
      small e4
  where
    count :
        refuse (ltb h.image_count 1 || ltb max_images h.image_count) bad_image_count ≡ accept tt
        → (1 ≤ h.image_count) × (h.image_count ≤ 4)
    count e = ground arith

-- The facts of `tbm1_precheck` that later steps use.
precheck_facts :
    (addr : ℕ) (buf : List ℕ) (manifest_cap : ℕ)
    → precheck addr buf manifest_cap ≡ accept tt
    → let h = header_of buf in
      (h.header_magic ≡ magic)
      × (576 ≤ h.total_len)
      × (h.total_len ≤ manifest_cap)
      × (Crc32.compute (take crc_len buf) ≡ h.fixed_crc32)
unfolding precheck
precheck_facts addr buf manifest_cap e = (ground arith, ground arith, ground arith, ground arith)

-- A buffer of bytes that `tbm1_validate` accepts: it has the magic number, its length is between that
-- of the fixed part with the signature and the capacity, and the CRC of its first 508 bytes stands
-- behind them; its region directory is accepted; and the offsets given out partition the region of
-- the chunk hashes over the images in use, which are all plausible.
pub validate-accept :
    (device : Device) (addr : ℕ) (buf : List ℕ) (manifest_cap staging_cap : ℕ) (offs : List ℕ)
    → All (λ x. x < 256) buf
    → validate device addr buf manifest_cap staging_cap ≡ accept offs
    → let h = header_of buf in
      (h.header_magic ≡ magic)
      × (576 ≤ h.total_len)
      × (h.total_len ≤ manifest_cap)
      × (Crc32.compute (take crc_len buf) ≡ h.fixed_crc32)
      × (validate_regions h ≡ accept tt)
      × IsPartition h staging_cap offs
unfolding validate
validate-accept device addr buf manifest_cap staging_cap offs bytes e =
    let (pre, e1) = >>-eq-accept (precheck addr buf manifest_cap) _ e in
    let (regions, e2) = >>-eq-accept (validate_regions (header_of buf)) _ e1 in
    let bounds =
      λ (i : ℕ) (r : Region) (at : get_elem? (header_of buf).regions i ≡ some r)
          (used : r.region_id ≢ region_none).
        validate_regions_bounds (header_of buf) i r (total_len_small buf bytes) regions at used in
    let checked = precheck_facts addr buf manifest_cap pre in
    (
      checked.0,
      checked.1,
      checked.2,
      checked.3,
      regions,
      images_IsPartition device (header_of buf) staging_cap offs (images-InRange buf bytes)
          (λ i r at used. omega (arith, (bounds i r at used).1, total_len_small buf bytes)) e2,
    )
