-- ===== src/Histogram/Dump.antt =====
-- What `decode_words` read from the dump.
use mathlib.Core.Path.{subst}
use fpga_algotrading.Prelude.{
  ℕ, zero, suc, ◌+◌, ◌≤◌, ◌≡◌, Bool, true, false, some, List, [], ◌∷◌, ◌==◌, arith, length, inl,
  inr, Bool-cases, bind-some,
}
use fpga_algotrading.Dict.{Dict, lookup}
use fpga_algotrading.Histogram.{HistogramGeometry, HistogramSnapshot, constructible}
use fpga_algotrading.Histogram.Telemetry.{
  a_hist, a_lat_cfg, a_lat_n, a_lat_min, a_lat_max, a_lat_over, a_lat_sum_lo, a_lat_sum_hi,
  telem_unmapped, need, need_buckets, lat_cfg_decode, status_saturated, version_ok, checked,
  read_words, decode_words,
}

-- The word stands in the dump and is not the sentinel of an unmapped address.
pub record IsWord (words : Dict ℕ) (addr v : ℕ) : Type 0 where
  pub there : lookup addr words ≡ some v
  pub mapped : (v == telem_unmapped) ≡ false

need-IsWord : (words : Dict ℕ) (addr v : ℕ) → need words addr ≡ some v → IsWord words addr v
unfolding need
need-IsWord words addr v h = record { there = ground arith; mapped = ground arith }

abbrev pub AreWords : Dict ℕ → ℕ → List ℕ → Type 0
AreWords words addr [] = Unit
AreWords words addr (v ∷ vs) = IsWord words addr v × AreWords words (addr + 1) vs

need_buckets-AreWords :
    (words : Dict ℕ) (addr n : ℕ) (vs : List ℕ)
    → need_buckets words addr n ≡ some vs
    → AreWords words addr vs
unfolding need_buckets
need_buckets-AreWords words addr zero [] h = tt
need_buckets-AreWords words addr zero (v ∷ vs) h = cc
need_buckets-AreWords words addr (suc n) vs h =
    let (v, got, h₁) = bind-some (need words addr) _ h in
    let (rest, got_rest, h₂) = bind-some (need_buckets words (addr + 1) n) _ h₁ in
    let e : v ∷ rest ≡ vs = cc in
    subst (AreWords words addr) e
      (need-IsWord words addr v got, need_buckets-AreWords words (addr + 1) n rest got_rest)

-- The snapshot is what the dump says.
pub record IsRead (words : Dict ℕ) (s : HistogramSnapshot) : Type 0 where
  pub sized : (2 ≤ s.geometry.n_buckets) × (s.geometry.n_buckets ≤ 32)
  pub full : length s.buckets ≡ s.geometry.n_buckets
  pub buckets : AreWords words a_hist s.buckets
  pub samples : IsWord words a_lat_n s.n_samples
  pub lowest : IsWord words a_lat_min s.min_cycles
  pub highest : IsWord words a_lat_max s.max_cycles
  pub overflowed : IsWord words a_lat_over s.over

lat_cfg_decode-le :
    (cfg : ℕ) (g : HistogramGeometry) → lat_cfg_decode cfg ≡ some g → g.n_buckets ≤ 32
unfolding lat_cfg_decode
lat_cfg_decode-le cfg g h = ground arith

checked-some : (r s : HistogramSnapshot) → checked r ≡ some s → (constructible r ≡ true) × (r ≡ s)
unfolding checked
checked-some r s h = elim (Bool-cases (constructible r)) [
  | inl good ↦ (good, let h' = rw good at h in cc)
  | inr bad ↦ let h' = rw bad at h in cc
]

constructible_lem :
    (s : HistogramSnapshot)
    → constructible s ≡ true
    → (2 ≤ s.geometry.n_buckets) × (length s.buckets ≡ s.geometry.n_buckets)
unfolding constructible
constructible_lem s h = ground arith

read_words-IsRead :
    (words : Dict ℕ) (s : HistogramSnapshot) → read_words words ≡ some s → IsRead words s
unfolding read_words
read_words-IsRead words s h =
    let (cfg, got_cfg, h₁) = bind-some (need words a_lat_cfg) _ h in
    let (g, got_g, h₂) = bind-some (lat_cfg_decode cfg) _ h₁ in
    let (bs, got_bs, h₃) = bind-some (need_buckets words a_hist g.n_buckets) _ h₂ in
    let (lo, got_lo, h₄) = bind-some (need words a_lat_sum_lo) _ h₃ in
    let (hi, got_hi, h₅) = bind-some (need words a_lat_sum_hi) _ h₄ in
    let (sat, got_sat, h₆) = bind-some (status_saturated words) _ h₅ in
    let (n, got_n, h₇) = bind-some (need words a_lat_n) _ h₆ in
    let (mn, got_mn, h₈) = bind-some (need words a_lat_min) _ h₇ in
    let (mx, got_mx, h₉) = bind-some (need words a_lat_max) _ h₈ in
    let (over, got_over, built) = bind-some (need words a_lat_over) _ h₉ in
    let (good, e) = checked-some _ s built in
    let (two, full) = constructible_lem _ good in
    subst (IsRead words) e (record {
      sized = (two, lat_cfg_decode-le cfg g got_g);
      full = full;
      buckets = need_buckets-AreWords words a_hist g.n_buckets bs got_bs;
      samples = need-IsWord words a_lat_n n got_n;
      lowest = need-IsWord words a_lat_min mn got_mn;
      highest = need-IsWord words a_lat_max mx got_mx;
      overflowed = need-IsWord words a_lat_over over got_over;
    })

-- A snapshot that is decoded has 2 to 32 buckets, as many as its geometry says, and every bucket,
-- the number of samples, the least, the greatest and the overflow count are the words that the dump
-- has at their addresses, none of them the sentinel of an unmapped address.
pub decode_words-IsRead :
    (words : Dict ℕ) (strict : Bool) (s : HistogramSnapshot)
    → decode_words words strict ≡ some s
    → IsRead words s
unfolding decode_words
decode_words-IsRead words strict s h = elim (Bool-cases (version_ok words strict)) [
  | inl fits ↦ read_words-IsRead words s (rw fits at h)
  | inr other ↦ let h' = rw other at h in cc
]
