-- ===== src/Tbm1/Regions.antt =====
-- What `tbm1_validate_regions` guarantees of the region directory.
use toob_loader.Common.{ℕ, zero, suc, ◌+◌, ◌-◌, ◌%◌, ◌^◌, ◌≤◌, ◌<◌, ◌≡◌, ◌≢◌, ◌∙◌, sym, arith}
use toob_loader.Common.{ltb, ◌==◌, Bool-cases, inl, inr, ◌⊎◌}
use toob_loader.Common.{
  List, [], ◌∷◌, get_elem?, some, bit_and, ==_iff, some_inj, lt→ltb, ltb_false→le,
}
use toob_loader.Common.Bits.{bit_and_seven, bit_test-set, bit_test-set_self}
use toob_loader.Tbm1.{accept, check_region, mark_seen, regions_loop, validate_regions}
use toob_loader.Tbm1.{>>-eq-accept}
use native.Mathlib.Nat.{mod-eq_of_lt}
use native.Mathlib.Decide.{dec_lt}
use toob_loader.Common.{subst}
use toob_loader.Tbm1.Layout.{Region, Header, signed_len, region_none}

-- An identifier below 16 has its bit in the set.
abbrev Seen : ℕ → ℕ → Type 0
Seen seen id = bit_and seen (2 ^ id) ≢ 0

-- A region that stands behind `prev` and inside the limit, on a multiple of 8, with an identifier
-- that is not in the set.
record FitsAt (limit prev seen : ℕ) (r : Region) : Type 0 where
  used : r.region_id ≢ region_none
  behind : prev ≤ r.off
  inside : r.off + r.len ≤ limit
  on_eight : r.off % 8 ≡ 0
  fresh : r.region_id < 16 → ¬ Seen seen r.region_id

-- The directory from one entry on.
abbrev Placed : ℕ → ℕ → ℕ → List Region → Type 0
Placed limit prev seen [] = Unit
Placed limit prev seen (r ∷ rs) =
    ((r.region_id ≡ region_none) × Placed limit prev seen rs)
    ⊎ (FitsAt limit prev seen r × Placed limit (r.off + r.len) (mark_seen seen r.region_id) rs)

check_region-FitsAt :
    (limit prev seen : ℕ) (r : Region)
    → r.region_id ≢ region_none
    → check_region limit r prev seen ≡ accept tt
    → FitsAt limit prev seen r
unfolding check_region
check_region-FitsAt limit prev seen r nz e = record {
  used = nz;
  behind = ground arith;
  inside = ground arith;
  on_eight = sym (bit_and_seven r.off) ∙ ground arith;
  fresh = λ small set. ground arith;
}

regions_loop-Placed :
    (limit : ℕ) (rs : List Region) (prev seen : ℕ)
    → limit < 2 ^ 32
    → regions_loop limit rs prev seen ≡ accept tt
    → Placed limit prev seen rs
unfolding regions_loop
regions_loop-Placed limit [] prev seen h e = tt
regions_loop-Placed limit (r ∷ rs) prev seen h e = elim (Bool-cases (r.region_id == region_none)) [
  | inl unused ↦
      inl ((==_iff _ _).0 unused, regions_loop-Placed limit rs prev seen h (rw unused at e))
  | inr used ↦
      let (here, later) = >>-eq-accept _ _ (rw used at e) in
      let fits =
        check_region-FitsAt limit prev seen r (λ z. cc (used, (==_iff r.region_id region_none).1 z))
          here in
      inr (
        fits,
        regions_loop-Placed limit rs (r.off + r.len) (mark_seen seen r.region_id) h (
            rw (mod-eq_of_lt {n = r.off + r.len} {m = 2 ^ 32} (omega (arith, fits.inside))) at
              later),
      )
]

Seen-mark_seen : (seen id id' : ℕ) → Seen seen id → Seen (mark_seen seen id') id
unfolding mark_seen
Seen-mark_seen seen id id' h = elim (Bool-cases (ltb id' 16)) [
  | inl e ↦ rw e (bit_test-set seen id id' h)
  | inr e ↦ rw e h
]

Seen-mark_seen_self : (seen id : ℕ) → id < 16 → Seen (mark_seen seen id) id
unfolding mark_seen
Seen-mark_seen_self seen id h = rw (lt→ltb id 16 h) (bit_test-set_self seen id)

-- What fits behind a region fits behind what that one fits behind.
FitsAt-before :
    (limit prev seen : ℕ) (x r : Region)
    → FitsAt limit prev seen x
    → FitsAt limit (x.off + x.len) (mark_seen seen x.region_id) r
    → FitsAt limit prev seen r
FitsAt-before limit prev seen x r fx fr = record {
  used = fr.used;
  behind = omega (arith, fx.behind, fr.behind);
  inside = fr.inside;
  on_eight = fr.on_eight;
  fresh = λ small set. fr.fresh small (Seen-mark_seen seen r.region_id x.region_id set);
}

-- Every region in use from some entry on stands behind `prev`, and has no identifier of the set.
Placed-member :
    (limit : ℕ) (rs : List Region) (prev seen i : ℕ) (r : Region)
    → Placed limit prev seen rs
    → get_elem? rs i ≡ some r
    → r.region_id ≢ region_none
    → FitsAt limit prev seen r
Placed-member limit [] prev seen i r p e nz = cc
Placed-member limit (x ∷ rs) prev seen zero r (inl (z, p)) e nz =
    absurd (subst (λ (t : Region). t.region_id ≢ region_none) (sym (some_inj e)) nz z)
Placed-member limit (x ∷ rs) prev seen zero r (inr (f, p)) e nz =
    subst (FitsAt limit prev seen) (some_inj e) f
Placed-member limit (x ∷ rs) prev seen (suc i) r (inl (z, p)) e nz =
    Placed-member limit rs prev seen i r p e nz
Placed-member limit (x ∷ rs) prev seen (suc i) r (inr (f, p)) e nz =
    FitsAt-before limit prev seen x r f
      (Placed-member limit rs (x.off + x.len) (mark_seen seen x.region_id) i r p e nz)

Placed-ordered :
    (limit : ℕ) (rs : List Region) (prev seen i j : ℕ) (r t : Region)
    → Placed limit prev seen rs
    → get_elem? rs i ≡ some r
    → get_elem? rs j ≡ some t
    → i < j
    → r.region_id ≢ region_none
    → t.region_id ≢ region_none
    → (r.off + r.len ≤ t.off) × (r.region_id < 16 → r.region_id ≢ t.region_id)
Placed-ordered limit [] prev seen i j r t p e e' lt nr nt = cc
Placed-ordered limit (x ∷ rs) prev seen i zero r t p e e' lt nr nt = absurd (omega arith)
Placed-ordered limit (x ∷ rs) prev seen zero (suc j) r t (inl (z, p)) e e' lt nr nt =
    absurd (subst (λ (u : Region). u.region_id ≢ region_none) (sym (some_inj e)) nr z)
Placed-ordered limit (x ∷ rs) prev seen zero (suc j) r t (inr (f, p)) e e' lt nr nt =
    subst (λ (u : Region). (u.off + u.len ≤ t.off) × (u.region_id < 16 → u.region_id ≢ t.region_id))
      (some_inj e) (behind later later.behind)
  where
    later : FitsAt limit (x.off + x.len) (mark_seen seen x.region_id) t
    later = Placed-member limit rs (x.off + x.len) (mark_seen seen x.region_id) j t p e' nt

    behind :
        FitsAt limit (x.off + x.len) (mark_seen seen x.region_id) t
        → x.off + x.len ≤ t.off
        → (x.off + x.len ≤ t.off) × (x.region_id < 16 → x.region_id ≢ t.region_id)
    behind g h = (
      h,
      λ small same. g.fresh (subst (λ n. n < 16) same small) (
          subst (Seen (mark_seen seen x.region_id)) same
            (Seen-mark_seen_self seen x.region_id small)),
    )
Placed-ordered limit (x ∷ rs) prev seen (suc i) (suc j) r t (inl (z, p)) e e' lt nr nt =
    Placed-ordered limit rs prev seen i j r t p e e' (omega arith) nr nt
Placed-ordered limit (x ∷ rs) prev seen (suc i) (suc j) r t (inr (f, p)) e e' lt nr nt =
    Placed-ordered limit rs (x.off + x.len) (mark_seen seen x.region_id) i j r t p e e'
      (omega arith) nr nt

-- The directory of an accepted header is placed between the fixed part and the signature.
validate_regions-Placed :
    (h : Header)
    → h.total_len < 2 ^ 32
    → validate_regions h ≡ accept tt
    → (576 ≤ h.total_len) × Placed (h.total_len - 64) 512 0 h.regions
unfolding validate_regions signed_len
validate_regions-Placed h small e = elim (Bool-cases (ltb h.total_len 576)) [
  | inl short ↦ cc (rw short at e)
  | inr long ↦ (
    ltb_false→le h.total_len 576 long,
    regions_loop-Placed (h.total_len - 64) h.regions 512 0 (omega arith)
        (>>-eq-accept _ _ (rw long at e)).1,
  )
]

-- In a header whose region directory is accepted, each region in use lies behind the fixed part and
-- before the signature, and starts on a multiple of 8.
pub validate_regions_bounds :
    (h : Header) (i : ℕ) (r : Region)
    → h.total_len < 2 ^ 32
    → validate_regions h ≡ accept tt
    → get_elem? h.regions i ≡ some r
    → r.region_id ≢ region_none
    → (512 ≤ r.off) × (r.off + r.len + 64 ≤ h.total_len) × (r.off % 8 ≡ 0)
validate_regions_bounds h i r small e at nz =
    let (long, placed) = validate_regions-Placed h small e in
    let f = Placed-member (h.total_len - 64) h.regions 512 0 i r placed at nz in
    (f.behind, omega (arith, f.inside, long), f.on_eight)

-- In a header whose region directory is accepted, of two regions in use the later one in the
-- directory starts behind the end of the earlier one, and an earlier one with an identifier below 16
-- has an identifier of its own.
pub validate_regions_disjoint :
    (h : Header) (i j : ℕ) (r t : Region)
    → h.total_len < 2 ^ 32
    → validate_regions h ≡ accept tt
    → get_elem? h.regions i ≡ some r
    → get_elem? h.regions j ≡ some t
    → i < j
    → r.region_id ≢ region_none
    → t.region_id ≢ region_none
    → (r.off + r.len ≤ t.off) × ((16 ≤ r.region_id) ⊎ (r.region_id ≢ t.region_id))
validate_regions_disjoint h i j r t small e at at' lt nr nt =
    let (behind, distinct) =
      Placed-ordered (h.total_len - 64) h.regions 512 0 i j r t
        (validate_regions-Placed h small e).1 at at' lt nr nt in
    (behind, either distinct)
  where
    either :
        (r.region_id < 16 → r.region_id ≢ t.region_id)
        → (16 ≤ r.region_id) ⊎ (r.region_id ≢ t.region_id)
    either distinct = elim (dec_lt r.region_id 16) [
      | yes small_id ↦ inr (distinct small_id)
      | no large_id ↦ inl (omega arith)
    ]
