-- ===== src/Tbm1/Images.antt =====
-- What `tbm1_validate_images` guarantees of the images and of the partition of the chunk hashes.
use toob_loader.Common.{ℕ, suc, ◌+◌, ◌*◌, ◌/◌, ◌%◌, ◌^◌, ◌≤◌, ◌<◌, ◌≡◌, ap, ap₂, ◌∙◌}
use toob_loader.Common.{false, ◌==◌, Bool-cases, inl, inr, arith}
use toob_loader.Common.{List, [], ◌∷◌, length, take, All, get_elem?, subst, some_inj, some, ==_iff}
use toob_loader.Tbm1.{Verdict, accept, reject, >>-eq-accept}
use toob_loader.Tbm1.{ceil_div_u32, check_image, put_offset, images_loop}
use native.Mathlib.Nat.{div-add-mod, mod-lt}
use toob_loader.Tbm1.Layout.{Region, Image, Header, find_in, region_chunk_hashes, max_images}

-- The fields of 32 bits that the sums are made of.
abbrev pub InRange : Image → Type 0
InRange d = (d.installed_size < 2 ^ 32) × (d.num_chunks < 2 ^ 32)

-- An image whose chunks cover it with none to spare, whose data lies in the staging area, and whose
-- enumerations have known values.
pub record IsPlausible (staging_cap : ℕ) (d : Image) : Type 0 where
  pub chunked : 0 < d.chunk_size
  pub covered : d.installed_size ≤ d.num_chunks * d.chunk_size
  pub tight : d.num_chunks * d.chunk_size < d.installed_size + d.chunk_size
  pub staged : d.data_off + d.stored_size ≤ staging_cap
  pub slot_known : d.target_slot ≤ 3
  pub compression_known : d.compression_alg ≤ 2
  pub delta_known : d.delta_alg ≤ 2

double_le : (q b : ℕ) → 2 ≤ b → 2 * q ≤ b * q
double_le q b h = grind arith

-- The quotient rounded up stays below 2 ^ 32, since a remainder wants a divisor above 1.
quotient_fits :
    (a b : ℕ) → 0 < b → a < 2 ^ 32 → (a % b == 0) ≡ false → (a / b + 1) % 2 ^ 32 ≡ a / b + 1
quotient_fits a b pos small e = ground (arith, div-add-mod a b, mod-lt a pos, double_le (a / b) b)

quotient_le : (a b : ℕ) → 0 < b → a / b ≤ a
quotient_le a b pos = grind (arith, div-add-mod a b)

-- `ceil_div_u32` is the least number of chunks that cover `a`; it does not wrap.
ceil_div_u32_lem :
    (a b : ℕ) → 0 < b → a < 2 ^ 32 → (a ≤ ceil_div_u32 a b * b) × (ceil_div_u32 a b * b < a + b)
unfolding ceil_div_u32
ceil_div_u32_lem a b pos small = elim (Bool-cases (a % b == 0)) [
  | inl e ↦ rw (e, exact) (grind (arith, div-add-mod a b))
  | inr e ↦ rw (e, quotient_fits a b pos small e) (grind (arith, div-add-mod a b, mod-lt a pos))
]
  where
    exact : (a / b + 0) % 2 ^ 32 ≡ a / b
    exact = omega (arith, quotient_le a b pos)

check_image-IsPlausible :
    (staging_cap : ℕ) (d : Image)
    → d.installed_size < 2 ^ 32
    → check_image d staging_cap ≡ accept tt
    → IsPlausible staging_cap d
unfolding check_image
check_image-IsPlausible cap d small e = record {
  chunked = pos;
  covered = rw count (ceil_div_u32_lem d.installed_size d.chunk_size pos small).0;
  tight = rw count (ceil_div_u32_lem d.installed_size d.chunk_size pos small).1;
  staged = ground arith;
  slot_known = ground arith;
  compression_known = ground arith;
  delta_known = ground arith;
}
  where
    pos : 0 < d.chunk_size
    pos = ground arith

    count : d.num_chunks ≡ ceil_div_u32 d.installed_size d.chunk_size
    count = ground arith

-- The bytes of chunk hashes of a list of images, and the offset at which each image's begin.
unfoldable pub hash_bytes : List Image → ℕ
hash_bytes [] = 0
hash_bytes (d ∷ ds) = 32 * d.num_chunks + hash_bytes ds

unfoldable pub hash_offsets : ℕ → List Image → List ℕ
hash_offsets base [] = []
hash_offsets base (d ∷ ds) = base ∷ hash_offsets (base + 32 * d.num_chunks) ds

put_offset-eq-accept :
    (off : ℕ) (m : Verdict (List ℕ × ℕ)) {offs : List ℕ} {acc : ℕ}
    → put_offset off m ≡ accept (offs, acc)
    → (later : List ℕ) × (m ≡ accept (later, acc)) × (offs ≡ off ∷ later)
unfolding put_offset
put_offset-eq-accept off (accept (later, acc)) e = (later, cc, cc)
put_offset-eq-accept off (reject r) e = cc

pub images_loop_lem :
    (cap : ℕ) (chunks : Region) (ds : List Image) (acc : ℕ) (offs : List ℕ) (total : ℕ)
    → All InRange ds
    → acc + 2 ^ 37 * length ds < 2 ^ 64
    → chunks.off + chunks.len < 2 ^ 32
    → total ≤ chunks.len
    → images_loop cap chunks ds acc ≡ accept (offs, total)
    → All (IsPlausible cap) ds
      × (total ≡ acc + hash_bytes ds)
      × (offs ≡ hash_offsets (chunks.off + acc) ds)
unfolding images_loop hash_bytes hash_offsets
images_loop_lem cap chunks [] acc offs total r b c t e = (tt, ground arith, cc)
images_loop_lem cap chunks (d ∷ ds) acc offs total ((ri, rn), r) b c t e =
    let (here, later) = >>-eq-accept (check_image d cap) _ e in
    let (offs', run, shape) =
      put_offset-eq-accept ((chunks.off + acc % 2 ^ 32) % 2 ^ 32)
        (images_loop cap chunks ds ((acc + d.num_chunks * 32) % 2 ^ 64)) later in
    let (plausible, sum, starts) =
      images_loop_lem cap chunks ds (acc + d.num_chunks * 32) offs' total r (omega arith) c t
        (rw no_wrap at run) in
    (
      (check_image-IsPlausible cap d ri here, plausible),
      omega (arith, sum),
      shape ∙ ap₂ ◌∷◌ (exact sum) (starts ∙ ap (λ n. hash_offsets n ds) (omega arith)),
    )
  where
    no_wrap : (acc + d.num_chunks * 32) % 2 ^ 64 ≡ acc + d.num_chunks * 32
    no_wrap = omega arith

    exact :
        total ≡ acc + d.num_chunks * 32 + hash_bytes ds
        → (chunks.off + acc % 2 ^ 32) % 2 ^ 32 ≡ chunks.off + acc
    exact sum = omega arith

pub find_in-get :
    (rs : List Region) (id : ℕ) {r : Region}
    → find_in rs id ≡ some r
    → (i : ℕ) × (get_elem? rs i ≡ some r) × (r.region_id ≡ id)
unfolding find_in
find_in-get [] id e = cc
find_in-get (x ∷ rs) id {r} e = elim (Bool-cases (x.region_id == id)) [
  | inl hit ↦ (
    0,
    rw hit at e,
    subst (λ (t : Region). t.region_id ≡ id) (some_inj (rw hit at e)) ((==_iff _ _).0 hit),
  )
  | inr miss ↦ let (i, at, same) = find_in-get rs id (rw miss at e) in (suc i, at, same)
]

-- What `validate_images` promises of the offsets `offs`: there is a region of chunk hashes in the
-- directory; every image in use is plausible; each image's hashes begin where those of the image
-- before it end, the first at the start of the region; and all of them fill the region exactly.
pub record IsPartition (h : Header) (staging_cap : ℕ) (offs : List ℕ) : Type 0 where
  pub chunks : Region
  pub index : ℕ
  pub listed : get_elem? h.regions index ≡ some chunks
  pub is_chunk_hashes : chunks.region_id ≡ region_chunk_hashes
  pub counted : (1 ≤ h.image_count) × (h.image_count ≤ max_images)
  pub plausible : All (IsPlausible staging_cap) (take h.image_count h.images)
  pub starts : offs ≡ hash_offsets chunks.off (take h.image_count h.images)
  pub filled : hash_bytes (take h.image_count h.images) ≡ chunks.len
