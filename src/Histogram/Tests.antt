-- ===== src/Histogram/Tests.antt =====
-- The histogram on a log2 geometry of five buckets and on a dump of it.
use fpga_algotrading.Prelude.{
  ℕ, ◌+◌, ◌*◌, ◌≡◌, ◌↔◌, refl, true, false, none, some, List, [], ◌∷◌, arith,
}
use fpga_algotrading.Dict.{Dict}
use fpga_algotrading.Histogram.{
  HistogramGeometry, HistogramSnapshot, Estimate, bit_length_on, bit_length, raw_index, bucket_of,
  edges, percentile, coherent, first_reaching, rank_of, estimate_for, bounds, constructible,
}
use fpga_algotrading.Histogram.Edges.{Within, bucket_of-edges}
use fpga_algotrading.Histogram.Quantile.{IsQuantile}
use fpga_algotrading.Histogram.Percentile.{Counts, Brackets, percentile-Brackets}
use fpga_algotrading.Histogram.Telemetry.{
  need, need_buckets, lat_cfg_decode, status_saturated, version_ok, checked, read_words,
  decode_words,
}
use fpga_algotrading.Histogram.Dump.{IsRead, decode_words-IsRead}

abbrev five_buckets : HistogramGeometry
five_buckets = record { n_buckets = 5; delta_w = 24; log_mode = true; lin_base = 0; lin_shift = 0 }

abbrev samples : List ℕ
samples = 0 ∷ 3 ∷ 2 ∷ 30 ∷ 3 ∷ []

abbrev snapshot : HistogramSnapshot
snapshot = record {
  geometry = five_buckets;
  buckets = 1 ∷ 0 ∷ 3 ∷ 0 ∷ 1 ∷ [];
  n_samples = 5;
  min_cycles = 0;
  max_cycles = 30;
  sum_cycles = 38;
  over = 1;
  saturated = false;
  last_cycles = none;
  snap_seq = none;
}

beyond_top : bucket_of five_buckets 30 ≡ (4, true)
unfolding bucket_of raw_index bit_length bit_length_on
beyond_top = refl

bucket_of-edges_example : Within (edges five_buckets 2) 3 ↔ ((bucket_of five_buckets 3).0 ≡ 2)
bucket_of-edges_example = bucket_of-edges five_buckets 2 3 (omega arith) (omega arith)

snapshot-Counts : Counts snapshot samples
unfolding bucket_of raw_index bit_length bit_length_on
snapshot-Counts = record {
  two = omega arith;
  banked = refl;
  counted = refl;
  lowest = omega arith;
  highest = omega arith;
}

percentile-Brackets_example :
    (e : Estimate) × (percentile snapshot 1 2 ≡ some e)
    × ((v : ℕ) × IsQuantile samples 1 2 v)
    × ((v : ℕ) → IsQuantile samples 1 2 v → Brackets e v)
percentile-Brackets_example =
    percentile-Brackets snapshot samples 1 2 snapshot-Counts (omega arith) (omega arith)

median :
    percentile snapshot 1 2
    ≡ some (record { lo_ps = 12800; hi_ps = 19200; exact = false; lower_bound = false })
unfolding percentile coherent first_reaching rank_of estimate_for edges bounds
median = refl

abbrev dump : Dict ℕ
dump =
    (0x0007, 16777216 + 24 * 65536 + 2)
    ∷ (0x00C0, 4)
    ∷ (0x00C1, 1)
    ∷ (0x00E2, 9)
    ∷ (0x00E3, 0)
    ∷ (0x00E4, 5)
    ∷ (0x00E0, 0)
    ∷ (0x00E1, 9)
    ∷ (0x00E5, 1)
    ∷ []

abbrev decoded : HistogramSnapshot
decoded = record {
  geometry = record { n_buckets = 2; delta_w = 24; log_mode = true; lin_base = 0; lin_shift = 0 };
  buckets = 4 ∷ 1 ∷ [];
  n_samples = 5;
  min_cycles = 0;
  max_cycles = 9;
  sum_cycles = 9;
  over = 1;
  saturated = false;
  last_cycles = none;
  snap_seq = none;
}

decode_words-IsRead_example : IsRead dump decoded
unfolding decode_words read_words need need_buckets lat_cfg_decode status_saturated version_ok
    checked constructible
decode_words-IsRead_example = decode_words-IsRead dump true decoded refl
