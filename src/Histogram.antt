-- ===== src/Histogram.antt =====
-- tools/analysis/histogram.py and the Estimate of tools/analysis/latency.py: the latency histogram
-- that the fabric counts, its geometry, and the percentiles read from it.
pub mod Dump
pub mod Telemetry
pub mod Bits
pub mod Edges
pub mod Tally
pub mod Quantile
pub mod Percentile
mod Tests
use fpga_algotrading.Prelude.{
  ℕ, zero, suc, ◌+◌, ◌-◌, ◌*◌, ◌/◌, ◌^◌, Bool, true, false, Option, none, some, List, [], ◌∷◌, ◌&&◌,
  ◌||◌, not, ltb, leb, ◌==◌, if◌then◌else◌, min, max, length,
}

abbrev pub cycle_ps : ℕ
cycle_ps = 6400

-- `int.bit_length`, with as many rounds at most as the number says.
pub bit_length_on : ℕ → ℕ → ℕ
bit_length_on zero n = 0
bit_length_on (suc rounds) n =
    let rest = bit_length_on rounds (n / 2) in if n == 0 then 0 else suc rest

unfoldable pub bit_length : ℕ → ℕ
bit_length n = bit_length_on n n

pub record HistogramGeometry : Type 0 where
  pub n_buckets : ℕ
  pub delta_w : ℕ
  pub log_mode : Bool
  pub lin_base : ℕ
  pub lin_shift : ℕ

-- The index in linear mode, from the base and the width of a bucket.
abbrev pub lin_index : ℕ → ℕ → ℕ → ℕ
lin_index base width delta = (if ltb base delta then delta - base else 0) / width

-- The index of `bucket_of` before it saturates.
unfoldable pub raw_index : HistogramGeometry → ℕ → ℕ
raw_index g delta =
    if g.log_mode then bit_length delta else lin_index g.lin_base (2 ^ g.lin_shift) delta

unfoldable pub bucket_of : HistogramGeometry → ℕ → ℕ × Bool
bucket_of g delta =
    let raw = raw_index g delta in
    if leb g.n_buckets raw then (g.n_buckets - 1, true) else (raw, false)

abbrev pub log_bounds : ℕ → ℕ × ℕ
log_bounds idx = if idx == 0 then (0, 0) else (2 ^ (idx - 1), 2 ^ idx - 1)

abbrev pub lin_bounds : ℕ → ℕ → ℕ → ℕ × ℕ
lin_bounds base width idx =
    if idx == 0 then (0, base + width - 1) else (base + idx * width, base + idx * width + width - 1)

-- The bounds of a bucket before the top one loses its upper bound.
unfoldable pub bounds : HistogramGeometry → ℕ → ℕ × ℕ
bounds g idx = if g.log_mode then log_bounds idx else lin_bounds g.lin_base (2 ^ g.lin_shift) idx

-- `edges`: the upper bound `none` says that there is none.
unfoldable pub edges : HistogramGeometry → ℕ → ℕ × Option ℕ
edges g idx = let (lo, hi) = bounds g idx in (lo, if idx == g.n_buckets - 1 then none else some hi)

unfoldable pub cannot_overflow : HistogramGeometry → Bool
cannot_overflow g = g.log_mode && leb (g.delta_w + 1) g.n_buckets

pub record Estimate : Type 0 where
  pub lo_ps : ℕ
  pub hi_ps : ℕ
  pub exact : Bool
  pub lower_bound : Bool

pub record HistogramSnapshot : Type 0 where
  pub geometry : HistogramGeometry
  pub buckets : List ℕ
  pub n_samples : ℕ
  pub min_cycles : ℕ
  pub max_cycles : ℕ
  pub sum_cycles : ℕ
  pub over : ℕ
  pub saturated : Bool
  pub last_cycles : Option ℕ
  pub snap_seq : Option ℕ

abbrev pub total : List ℕ → ℕ
total [] = 0
total (b ∷ bs) = b + total bs

-- `coherent`, which `__post_init__` sets
unfoldable pub coherent : HistogramSnapshot → Bool
coherent s = total s.buckets == s.n_samples

-- What `__post_init__` of the geometry and of the snapshot refuse
unfoldable pub constructible : HistogramSnapshot → Bool
constructible s = leb 2 s.geometry.n_buckets && length s.buckets == s.geometry.n_buckets

-- The loop of `percentile` from a bucket on; where it falls through, the last bucket.
pub first_reaching : ℕ → ℕ → ℕ → List ℕ → ℕ
first_reaching rank cum idx [] = idx - 1
first_reaching rank cum idx (count ∷ counts) =
    let rest = first_reaching rank (cum + count) (idx + 1) counts in
    if leb rank (cum + count) then idx else rest

unfoldable pub estimate_for : HistogramSnapshot → ℕ → Estimate
estimate_for s idx =
    let (lo, hi) = edges s.geometry idx in
    let lo_c = max lo s.min_cycles in
    let hi_c : ℕ = elim hi [ none ↦ s.max_cycles | some h ↦ min h s.max_cycles ] in
    let hi_c' = if ltb hi_c lo_c then lo_c else hi_c in
    record {
      lo_ps = lo_c * cycle_ps;
      hi_ps = hi_c' * cycle_ps;
      exact = lo_c == hi_c';
      lower_bound = idx == s.geometry.n_buckets - 1 && ltb 0 s.over;
    }

-- The rank of a quantile, counted from 1.
unfoldable pub rank_of : ℕ → ℕ → ℕ → ℕ
rank_of n num den = max 1 (min ((n * num + den - 1) / den) n)

-- `percentile`; `none` is the `ProvenanceError`, or the division by zero.
unfoldable pub percentile : HistogramSnapshot → ℕ → ℕ → Option Estimate
percentile s num den =
    if not (coherent s) || s.n_samples == 0 || den == 0
    then none
    else some (estimate_for s (first_reaching (rank_of s.n_samples num den) 0 0 s.buckets))
