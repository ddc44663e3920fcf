-- ===== src/Histogram/Edges.antt =====
-- `edges` is the inverse of `bucket_of`: the buckets partition the cycle counts.
use native.Mathlib.Nat.{pow-le-pow_right, one-le-pow, div-add-mod, mod-lt, mul_comm, zero-div}
use mathlib.Core.Path.{subst}
use native.Mathlib.Omega.{pow_step}
use fpga_algotrading.Prelude.{
  ℕ, zero, suc, ◌+◌, ◌-◌, ◌*◌, ◌/◌, ◌^◌, ◌≤◌, ◌<◌, ◌≡◌, ◌↔◌, inl, inr, Option, none, some, ltb,
  ◌==◌, arith, Bool-cases,
}
use fpga_algotrading.Histogram.{
  HistogramGeometry, bit_length, lin_index, raw_index, log_bounds, lin_bounds, bucket_of, bounds,
  edges,
}
use fpga_algotrading.Histogram.Bits.{bit_length-Digits}

abbrev pub Between : ℕ × ℕ → ℕ → Type 0
Between (lo, hi) d = (lo ≤ d) × (d ≤ hi)

pow_positive : (w : ℕ) → 0 < 2 ^ w
pow_positive w = one-le-pow w 2 (omega arith)

log_Between : (d : ℕ) → Between (log_bounds (bit_length d)) d
log_Between d = ground (arith, bit_length-Digits d)

quotient : (rel w : ℕ) → 0 < w → (rel / w * w ≤ rel) × (rel < rel / w * w + w)
quotient rel w h = omega (arith, div-add-mod rel w, mod-lt rel h, mul_comm w (rel / w))

above_Between : (base w rel : ℕ) → 0 < w → Between (lin_bounds base w (rel / w)) (base + rel)
above_Between base w rel h =
    let (lower, upper) = quotient rel w h in
    elim (Bool-cases (rel / w == 0)) [
      | inl z ↦
          let e : rel / w ≡ 0 = ground arith in
          let small : rel < 0 * w + w = rw e at upper in rw e (omega arith)
      | inr more ↦ rw more (omega arith)
    ]

below_Between : (base w d : ℕ) → 0 < w → d ≤ base → Between (lin_bounds base w (0 / w)) d
below_Between base w d h le = rw (zero-div w) (omega arith)

lin_Between : (base w d : ℕ) → 0 < w → Between (lin_bounds base w (lin_index base w d)) d
lin_Between base w d h = elim (Bool-cases (ltb base d)) [
  | inl above ↦
      let e : base + (d - base) ≡ d = ground arith in
      rw above
        (subst (Between (lin_bounds base w ((d - base) / w))) e (above_Between base w (d - base) h))
  | inr below ↦ rw below (below_Between base w d h (ground arith))
]

raw_index-Between : (g : HistogramGeometry) (d : ℕ) → Between (bounds g (raw_index g d)) d
unfolding raw_index bounds
raw_index-Between g d = elim (Bool-cases g.log_mode) [
  | inl log ↦ rw log (log_Between d)
  | inr lin ↦ rw lin (lin_Between g.lin_base (2 ^ g.lin_shift) d (pow_positive g.lin_shift))
]

log_ordered : (i j : ℕ) → i < j → (log_bounds i).1 < (log_bounds j).0
log_ordered i j h = ground (
  arith,
  pow_positive i,
  pow_positive (j - 1),
  pow-le-pow_right {n = 2} (omega arith) {i = i} {j = j - 1},
)

multiples : (i j w : ℕ) → i < j → i * w + w ≤ j * w
multiples i j w h = grind arith

lin_ordered : (base w i j : ℕ) → 0 < w → i < j → (lin_bounds base w i).1 < (lin_bounds base w j).0
lin_ordered base w i j p h = ground (arith, multiples i j w h, multiples 0 j w)

bounds_ordered : (g : HistogramGeometry) (i j : ℕ) → i < j → (bounds g i).1 < (bounds g j).0
unfolding bounds
bounds_ordered g i j h = elim (Bool-cases g.log_mode) [
  | inl log ↦ rw log (log_ordered i j h)
  | inr lin ↦ rw lin (lin_ordered g.lin_base (2 ^ g.lin_shift) i j (pow_positive g.lin_shift) h)
]

abbrev pub Within : ℕ × Option ℕ → ℕ → Type 0
Within (lo, none) d = lo ≤ d
Within (lo, some hi) d = Between (lo, hi) d

-- A count lies within a bucket only if it is the bucket of its index, or beyond the top one.
raw_index_of : (g : HistogramGeometry) (idx d : ℕ) → Between (bounds g idx) d → raw_index g d ≡ idx
raw_index_of g idx d (above, below) =
    let (lo, hi) = raw_index-Between g d in
    ground (arith, bounds_ordered g (raw_index g d) idx, bounds_ordered g idx (raw_index g d))

raw_index_top : (g : HistogramGeometry) (idx d : ℕ) → (bounds g idx).0 ≤ d → idx ≤ raw_index g d
raw_index_top g idx d above =
    let (lo, hi) = raw_index-Between g d in ground (arith, bounds_ordered g (raw_index g d) idx)

log_nonempty : (i : ℕ) → (log_bounds i).0 ≤ (log_bounds i).1
log_nonempty zero = omega arith
log_nonempty (suc i) =
    let e : suc i - 1 ≡ i = omega arith in rw e (ground (arith, pow_step 2 i, pow_positive i))

bounds_nonempty : (g : HistogramGeometry) (i : ℕ) → (bounds g i).0 ≤ (bounds g i).1
unfolding bounds
bounds_nonempty g i = elim (Bool-cases g.log_mode) [
  | inl log ↦ rw log (log_nonempty i)
  | inr lin ↦ rw lin (ground (arith, pow_positive g.lin_shift))
]

-- Every cycle count lies within the edges of the bucket that it is counted in, and of no other
-- bucket: the edges of the buckets partition the counts, in both modes, with the counts beyond the
-- top bucket in the top bucket.
pub bucket_of-edges :
    (g : HistogramGeometry) (idx d : ℕ)
    → 2 ≤ g.n_buckets
    → idx < g.n_buckets
    → Within (edges g idx) d ↔ ((bucket_of g d).0 ≡ idx)
unfolding edges bucket_of
bucket_of-edges g idx d two h = (
  λ within. ground (arith, raw_index_of g idx d, raw_index_top g idx d),
  λ counted.
      let (lo, hi) = raw_index-Between g d in
      ground (arith, bounds_ordered g idx (raw_index g d), bounds_nonempty g idx),
)

pub bucket_of_mono :
    (g : HistogramGeometry) (d e : ℕ) → d ≤ e → (bucket_of g d).0 ≤ (bucket_of g e).0
unfolding bucket_of
bucket_of_mono g d e h =
    let (lo, hi) = raw_index-Between g d in
    let (lo', hi') = raw_index-Between g e in
    ground (arith, bounds_ordered g (raw_index g e) (raw_index g d))

pub bucket_of-lt :
    (g : HistogramGeometry) (d : ℕ) → 2 ≤ g.n_buckets → (bucket_of g d).0 < g.n_buckets
unfolding bucket_of
bucket_of-lt g d two = ground arith
