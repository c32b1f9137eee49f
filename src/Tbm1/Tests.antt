-- ===== src/Tbm1/Tests.antt =====
-- Tests of the manifest checks, on a small manifest with one region and one image.
use toob_loader.Common.{ℕ, ◌+◌, ◌<◌, ◌≤◌, ◌≡◌, ◌≢◌, refl, ◌%◌, arith, ◌⊎◌, inl, inr}
use toob_loader.Common.{Bool, true, ltb, ◌&&◌, Bool-cases, ltb→lt}
use toob_loader.Common.{List, [], ◌∷◌, ◌++◌, replicate, take, All}
use toob_loader.Crc32
use toob_loader.Tbm1.Layout.{Header, Region, header_of, magic, crc_len}
use toob_loader.Tbm1.{Device, accept, validate, validate_regions}
use toob_loader.Tbm1.{precheck, regions_loop, validate_images, check_image}
use toob_loader.Tbm1.Regions.{validate_regions_bounds, validate_regions_disjoint}
use toob_loader.Tbm1.Images.{IsPartition}
use toob_loader.Tbm1.Accepted.{validate-accept}

abbrev manifest : List ℕ
manifest =
    (84
      ∷ (66
          ∷ (77
              ∷ (49
                  ∷ (2
                      ∷ (0
                          ∷ (0
                              ∷ (2
                                  ∷ (96
                                      ∷ (2
                                          ∷ (replicate 8 0
                                              ++ (7
                                                  ∷ (0
                                                      ∷ (1
                                                          ∷ (0
                                                            ∷ (3
                                                            ∷ (0
                                                            ∷ (0
                                                            ∷ (1
                                                            ∷ (0
                                                            ∷ (0
                                                            ∷ (2
                                                            ∷ (replicate 59 0
                                                            ++ (1
                                                            ∷ (0
                                                            ∷ (0
                                                            ∷ (0
                                                            ∷ (0
                                                            ∷ (2
                                                            ∷ (0
                                                            ∷ (0
                                                            ∷ (32
                                                            ∷ (replicate 87 0
                                                            ++ (1
                                                            ∷ (replicate 7 0
                                                            ++ (232
                                                            ∷ (3
                                                            ∷ (0
                                                            ∷ (0
                                                            ∷ (0
                                                            ∷ (16
                                                            ∷ (0
                                                            ∷ (0
                                                            ∷ (0
                                                            ∷ (16
                                                            ∷ (0
                                                            ∷ (0
                                                            ∷ (1
                                                            ∷ (replicate 303 0
                                                            ++ (78 ∷ (113 ∷ (96 ∷ (143 ∷ [])))))))))
                                                            ))))))))))))))))))))))))))))))))))))))))
                                                            ))))

abbrev device : Device
device = record { device_product_id = 7; device_hw_rev = 2; key_slots = 6 }

validate-manifest : validate device 0x20000000 manifest 4096 65536 ≡ accept (512 ∷ [])
unfolding validate precheck header_of Crc32.compute validate_regions regions_loop validate_images
    check_image
validate-manifest = refl

abbrev all_below : ℕ → List ℕ → Bool
all_below n [] = true
all_below n (x ∷ xs) = ltb x n && all_below n xs

all_below-All : (n : ℕ) (xs : List ℕ) → all_below n xs ≡ true → All (λ x. x < n) xs
all_below-All n [] h = tt
all_below-All n (x ∷ xs) h = elim (Bool-cases (ltb x n)) [
  | inl e ↦ (ltb→lt x n e, all_below-All n xs (rw e at h))
  | inr e ↦ cc (rw e at h)
]

validate-accept_example :
    let h = header_of manifest in
    (h.header_magic ≡ magic)
    × (576 ≤ h.total_len)
    × (h.total_len ≤ 4096)
    × (Crc32.compute (take crc_len manifest) ≡ h.fixed_crc32)
    × (validate_regions h ≡ accept tt)
    × IsPartition h 65536 (512 ∷ [])
validate-accept_example =
    validate-accept device 0x20000000 manifest 4096 65536 (512 ∷ [])
      (all_below-All 256 manifest refl) validate-manifest

abbrev hashes : Region
hashes = record { region_id = 1; off = 512; len = 32 }

abbrev script : Region
script = record { region_id = 5; off = 544; len = 16 }

abbrev two_regions : Header
two_regions = record (header_of manifest) { total_len = 640; regions = hashes ∷ (script ∷ []) }

validate_regions-two_regions : validate_regions two_regions ≡ accept tt
unfolding validate_regions header_of regions_loop
validate_regions-two_regions = refl

validate_regions_bounds_example :
    (512 ≤ script.off)
    × (script.off + script.len + 64 ≤ two_regions.total_len)
    × (script.off % 8 ≡ 0)
validate_regions_bounds_example =
    validate_regions_bounds two_regions 1 script (omega arith) validate_regions-two_regions refl
      (omega arith)

validate_regions_disjoint_example :
    (hashes.off + hashes.len ≤ script.off)
    × ((16 ≤ hashes.region_id) ⊎ (hashes.region_id ≢ script.region_id))
validate_regions_disjoint_example =
    validate_regions_disjoint two_regions 0 1 hashes script (omega arith)
      validate_regions-two_regions refl refl (omega arith) (omega arith) (omega arith)
