-- ===== src/Histogram/Percentile.antt =====
-- `percentile` on a snapshot that counts some samples.
use mathlib.Core.Path.{subst}
use fpga_algotrading.Prelude.{
  ℕ, ◌+◌, ◌-◌, ◌*◌, ◌≤◌, ◌<◌, ◌≡◌, sym, ap, ◌∙◌, inl, inr, Bool-cases, true, some, List, ltb, leb,
  ◌==◌, arith, length,
}
use fpga_algotrading.Histogram.{
  HistogramSnapshot, Estimate, bucket_of, edges, coherent, first_reaching, rank_of, estimate_for,
  percentile, cycle_ps,
}
use fpga_algotrading.Histogram.Edges.{bucket_of-edges, bucket_of_mono, bucket_of-lt}
use fpga_algotrading.Histogram.Quantile.{
  IsQuantile, AtRank, tally_top, IsQuantile-AtRank, AtRank-IsQuantile, some-AtRank,
}
use fpga_algotrading.Histogram.Tally.{
  All, tally_mono, tally_all, tally_low, tally_high, below, bank, total-bank, below_none, Reaches,
  first_reaching-Reaches,
}

-- The snapshot counts the samples: each bucket those of its index, and the registers hold the
-- number of samples and bounds on them.
pub record Counts (s : HistogramSnapshot) (samples : List ℕ) : Type 0 where
  pub two : 2 ≤ s.geometry.n_buckets
  pub banked : s.buckets ≡ bank (λ d. (bucket_of s.geometry d).0) samples 0 s.geometry.n_buckets
  pub counted : s.n_samples ≡ length samples
  pub lowest : All (λ d. s.min_cycles ≤ d) samples
  pub highest : All (λ d. d ≤ s.max_cycles) samples

abbrev pub Brackets : Estimate → ℕ → Type 0
Brackets e v = (e.lo_ps ≤ v * cycle_ps) × (v * cycle_ps ≤ e.hi_ps)

estimate_for-Brackets :
    (s : HistogramSnapshot) (idx v : ℕ)
    → 2 ≤ s.geometry.n_buckets
    → (bucket_of s.geometry v).0 ≡ idx
    → s.min_cycles ≤ v
    → v ≤ s.max_cycles
    → Brackets (estimate_for s idx) v
unfolding estimate_for edges
estimate_for-Brackets s idx v two at low high =
    let within =
      (bucket_of-edges s.geometry idx v two
          (let lt = bucket_of-lt s.geometry v two in ground arith)).1
        at in
    elim (Bool-cases (idx == s.geometry.n_buckets - 1)) [
      | inl last ↦ let w = rw last at within in rw last (ground arith)
      | inr inner ↦ let w = rw inner at within in rw inner (ground arith)
    ]

module _ (s : HistogramSnapshot) (samples : List ℕ) (c : Counts s samples) where
  abbrev index : ℕ → ℕ
  index d = (bucket_of s.geometry d).0

  abbrev top : ℕ
  top = s.geometry.n_buckets

  all_below : below index samples top ≡ length samples
  all_below =
      tally_all (λ d. ltb (index d) top) samples (λ d. ground (arith, bucket_of-lt s.geometry d))

  counted-coherent : coherent s ≡ true
  unfolding coherent
  counted-coherent =
      rw c.banked (ground (arith, total-bank index samples top, all_below, c.counted))

  -- A value at a rank lies in the bucket where the count reaches the rank.
  bucket_at : (rank v k : ℕ) → AtRank samples rank v → Reaches index samples rank k → index v ≡ k
  bucket_at rank v k at r = elim (Bool-cases (ltb (index v) k)) [
    | inl before ↦
        let le =
          tally_mono (λ d. leb d v) (λ d. ltb (index d) k) samples
            (λ d h. ground (arith, bucket_of_mono s.geometry d v)) in
        absurd (omega arith)
    | inr later ↦ elim (Bool-cases (ltb k (index v))) [
      | inl after ↦
          let le =
            tally_mono (λ d. ltb (index d) (k + 1)) (λ d. ltb d v) samples
              (λ d h. ground (arith, bucket_of_mono s.geometry v d)) in
          absurd (omega arith)
      | inr same ↦ ground arith
    ]
  ]

  percentile-bucket :
      (rank v : ℕ)
      → 1 ≤ rank
      → rank ≤ length samples
      → AtRank samples rank v
      → index v ≡ first_reaching rank 0 0 s.buckets
  percentile-bucket rank v one le at =
      let e : 0 + top ≡ top = omega arith in
      let reaches : Reaches index samples rank
          (first_reaching rank 0 0 (bank index samples 0 top)) =
        first_reaching-Reaches index samples rank 0 0 top (sym (below_none index samples))
          (omega arith) (rw e (omega (arith, all_below))) in
      bucket_at rank v _ at reaches ∙ ap (first_reaching rank 0 0) (sym c.banked)

  rank_bounds :
      (num den : ℕ)
      → 0 < length samples
      → (1 ≤ rank_of s.n_samples num den) × (rank_of s.n_samples num den ≤ length samples)
  unfolding rank_of
  rank_bounds num den h = omega (arith, c.counted)

  reached-Brackets :
      (num den v : ℕ)
      → 0 < length samples
      → AtRank samples (rank_of s.n_samples num den) v
      → Brackets (estimate_for s (first_reaching (rank_of s.n_samples num den) 0 0 s.buckets)) v
  reached-Brackets num den v h at =
      let (one, le) = rank_bounds num den h in
      estimate_for-Brackets s _ v c.two (percentile-bucket _ v one le at)
        (tally_low s.min_cycles v samples c.lowest (omega arith))
        (tally_high s.max_cycles v samples c.highest (omega arith))

  -- There is a sample of every quantile.
  some-IsQuantile :
      (num den : ℕ) → 0 < den → 0 < length samples → (v : ℕ) × IsQuantile samples num den v
  some-IsQuantile num den pos h =
      let (one, le) =
        subst (λ n. (1 ≤ rank_of n num den) × (rank_of n num den ≤ length samples)) c.counted
          (rank_bounds num den h) in
      let (v, at) =
        some-AtRank samples (rank_of (length samples) num den) s.max_cycles one
          (omega (arith, le, tally_top s.max_cycles samples c.highest)) in
      (v, AtRank-IsQuantile samples num den v pos h at)

-- The percentile num/den of a snapshot that counts some samples is given, and its interval holds the
-- sample of that quantile: one of the samples, with none or less than num/den of the samples below
-- it, and with at least num/den of the samples, or all of them, not above it. Such a sample exists,
-- and the interval holds every number that is one.
pub percentile-Brackets :
    (s : HistogramSnapshot) (samples : List ℕ) (num den : ℕ)
    → Counts s samples
    → 0 < den
    → 0 < length samples
    → (e : Estimate) × (percentile s num den ≡ some e)
      × ((v : ℕ) × IsQuantile samples num den v)
      × ((v : ℕ) → IsQuantile samples num den v → Brackets e v)
unfolding percentile
percentile-Brackets s samples num den c pos there = (
  estimate_for s (first_reaching (rank_of s.n_samples num den) 0 0 s.buckets),
  ground (arith, counted-coherent s samples c, c.counted),
  some-IsQuantile s samples c num den pos there,
  λ v q. reached-Brackets s samples c num den v there (
      subst (λ n. AtRank samples (rank_of n num den) v) (sym c.counted)
        (IsQuantile-AtRank samples num den v pos q)),
)
