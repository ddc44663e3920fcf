-- ===== src/Histogram/Quantile.antt =====
-- The rank of a quantile, and the sample that stands at it.
use native.Mathlib.Nat.{le-div_iff_mul-le, div-lt_iff_lt-mul}
use fpga_algotrading.Prelude.{
  ℕ, zero, suc, ◌+◌, ◌-◌, ◌*◌, ◌/◌, ◌≤◌, ◌<◌, ◌≡◌, ◌⊎◌, refl, inl, inr, Bool, Bool-cases, List, [],
  ◌∷◌, ltb, leb, ◌==◌, arith, length,
}
use fpga_algotrading.Histogram.{rank_of}
use fpga_algotrading.Histogram.Tally.{tally, All, tally_mono}

-- The sample of the quantile num/den: one of the samples, with none or less than num/den of the
-- samples below it, and with at least num/den of the samples, or all of them, not above it.
pub record IsQuantile (samples : List ℕ) (num den v : ℕ) : Type 0 where
  pub there : tally (λ d. ltb d v) samples < tally (λ d. leb d v) samples
  pub fewer :
      (tally (λ d. ltb d v) samples ≡ 0)
      ⊎ (tally (λ d. ltb d v) samples * den < length samples * num)
  pub upto :
      (length samples * num ≤ tally (λ d. leb d v) samples * den)
      ⊎ (tally (λ d. leb d v) samples ≡ length samples)

-- The sample at a rank, counted from 1: fewer samples than the rank are smaller, and as many at
-- least are not larger.
pub record AtRank (samples : List ℕ) (rank v : ℕ) : Type 0 where
  pub fewer : tally (λ d. ltb d v) samples < rank
  pub upto : rank ≤ tally (λ d. leb d v) samples

tally-le : (p : ℕ → Bool) (xs : List ℕ) → tally p xs ≤ length xs
tally-le p [] = omega arith
tally-le p (x ∷ xs) = ground (arith, tally-le p xs)

tally_none : (xs : List ℕ) → tally (λ d. ltb d 0) xs ≡ 0
tally_none [] = refl
tally_none (x ∷ xs) = ground (arith, tally_none xs)

pub tally_top : (m : ℕ) (xs : List ℕ) → All (λ d. d ≤ m) xs → tally (λ d. leb d m) xs ≡ length xs
tally_top m [] all = refl
tally_top m (x ∷ xs) all = ground (arith, tally_top m xs all.1)

-- A share of the samples rounded up: what is below it, and what reaches it.
module _ (a den : ℕ) (pos : 0 < den) where
  below_share : (t : ℕ) → t * den < a → t < (a + den - 1) / den
  below_share t h =
      let f = (le-div_iff_mul-le {x = t + 1} {y = a + den - 1} pos).1 (omega arith) in omega arith

  share_below : (t : ℕ) → t < (a + den - 1) / den → t * den < a
  share_below t h =
      let f = (le-div_iff_mul-le {x = t + 1} {y = a + den - 1} pos).0 (omega arith) in omega arith

  reaches_share : (t : ℕ) → a ≤ t * den → (a + den - 1) / den ≤ t
  reaches_share t h =
      let f = (div-lt_iff_lt-mul {x = a + den - 1} {y = t + 1} pos).1 (omega arith) in omega arith

  share_reached : (t : ℕ) → (a + den - 1) / den ≤ t → a ≤ t * den
  share_reached t h =
      let f = (div-lt_iff_lt-mul {x = a + den - 1} {y = t + 1} pos).0 (omega arith) in omega arith

module _ (samples : List ℕ) (num den v : ℕ) (pos : 0 < den) where
  abbrev smaller : ℕ
  smaller = tally (λ d. ltb d v) samples

  abbrev up_to : ℕ
  up_to = tally (λ d. leb d v) samples

  pub IsQuantile-AtRank :
      IsQuantile samples num den v → AtRank samples (rank_of (length samples) num den) v
  unfolding rank_of
  IsQuantile-AtRank q =
      let l = tally-le (λ d. leb d v) samples in
      let there = q.there in
      record {
        fewer = elim q.fewer [
          | inl none ↦ omega arith
          | inr few ↦ let f = below_share (length samples * num) den pos smaller few in omega arith
        ];
        upto = elim q.upto [
          | inl many ↦
              let f = reaches_share (length samples * num) den pos up_to many in omega arith
          | inr whole ↦ omega arith
        ];
      }

  pub AtRank-IsQuantile :
      0 < length samples
      → AtRank samples (rank_of (length samples) num den) v
      → IsQuantile samples num den v
  unfolding rank_of
  AtRank-IsQuantile some_there at =
      let l = tally-le (λ d. leb d v) samples in
      let few = at.fewer in
      let many = at.upto in
      record {
        there = omega arith;
        fewer = elim (Bool-cases (smaller == 0)) [
          | inl none ↦ inl (ground arith)
          | inr more ↦ inr (share_below (length samples * num) den pos smaller (ground arith))
        ];
        upto = elim (Bool-cases (leb (length samples) up_to)) [
          | inl whole ↦ inr (ground arith)
          | inr short ↦ inl (share_reached (length samples * num) den pos up_to (ground arith))
        ];
      }

-- A rank that the samples up to some bound reach has its sample.
pub some-AtRank :
    (samples : List ℕ) (rank bound : ℕ)
    → 1 ≤ rank
    → rank ≤ tally (λ d. leb d bound) samples
    → (v : ℕ) × AtRank samples rank v
some-AtRank samples rank zero one enough =
    (0, record { fewer = omega (arith, tally_none samples); upto = enough })
some-AtRank samples rank (suc bound) one enough =
    elim (Bool-cases (leb rank (tally (λ d. leb d bound) samples))) [
      | inl before ↦ some-AtRank samples rank bound one (ground arith)
      | inr now ↦
          let le =
            tally_mono (λ d. ltb d (suc bound)) (λ d. leb d bound) samples (λ d h. ground arith) in
          (suc bound, record { fewer = ground arith; upto = enough })
    ]
