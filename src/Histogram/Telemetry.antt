-- ===== src/Histogram/Telemetry.antt =====
-- tools/analysis/histogram.py, `decode_words`: a snapshot from a dump of the telemetry words.
use Prim.Native.Nat.{bit_or}
use fpga_algotrading.Prelude.{
  ℕ, zero, suc, ◌+◌, ◌*◌, ◌/◌, ◌%◌, ◌^◌, Bool, true, false, Option, none, some, List, [], ◌∷◌, ◌&&◌,
  ◌||◌, not, ltb, ◌==◌, if◌then◌else◌, ◌>>=◌,
}
use fpga_algotrading.Dict.{Dict, lookup}
use fpga_algotrading.Histogram.{HistogramGeometry, HistogramSnapshot, constructible}

abbrev pub telem_map_magic : ℕ
telem_map_magic = 0x4654

abbrev pub telem_map_major : ℕ
telem_map_major = 1

abbrev pub telem_unmapped : ℕ
telem_unmapped = 0xDEADC0DE

abbrev pub telem_hist_max : ℕ
telem_hist_max = 32

abbrev pub a_status : ℕ
a_status = 0x0000

abbrev pub a_version : ℕ
a_version = 0x0003

abbrev pub a_snap_seq : ℕ
a_snap_seq = 0x0006

abbrev pub a_lat_cfg : ℕ
a_lat_cfg = 0x0007

abbrev pub a_hist : ℕ
a_hist = 0x00C0

abbrev pub a_lat_min : ℕ
a_lat_min = 0x00E0

abbrev pub a_lat_max : ℕ
a_lat_max = 0x00E1

abbrev pub a_lat_sum_lo : ℕ
a_lat_sum_lo = 0x00E2

abbrev pub a_lat_sum_hi : ℕ
a_lat_sum_hi = 0x00E3

abbrev pub a_lat_n : ℕ
a_lat_n = 0x00E4

abbrev pub a_lat_over : ℕ
a_lat_over = 0x00E5

abbrev pub a_lat_last : ℕ
a_lat_last = 0x00E6

-- `_lat_cfg_decode`; `none` is the `ProvenanceError`, here and below.
unfoldable pub lat_cfg_decode : ℕ → Option HistogramGeometry
lat_cfg_decode word =
    let n_buckets = word % 65536 in
    let delta_w = word / 65536 % 256 in
    if n_buckets == 0 || ltb telem_hist_max n_buckets
    then none
    else if delta_w == 0 || ltb 32 delta_w
    then none
    else some (record {
      n_buckets = n_buckets;
      delta_w = delta_w;
      log_mode = word / 16777216 % 2 == 1;
      lin_base = 0;
      lin_shift = 0;
    })

-- `need`: a word that is there and is not the sentinel
unfoldable pub need : Dict ℕ → ℕ → Option ℕ
need words addr = elim (lookup addr words) [
  | none ↦ none
  | some v ↦ if v == telem_unmapped then none else some v
]

-- The words of the buckets from an address on.
unfoldable pub need_buckets : Dict ℕ → ℕ → ℕ → Option (List ℕ)
need_buckets words addr zero = some []
need_buckets words addr (suc n) = do
  v ← need words addr
  rest ← need_buckets words (addr + 1) n
  some (v ∷ rest)

-- The test of the version word, where the dump has one.
unfoldable pub version_ok : Dict ℕ → Bool → Bool
version_ok words strict = elim (lookup a_version words) [
  | none ↦ true
  | some ver ↦
      ver / 65536 % 65536 == telem_map_magic && (not strict || ver / 256 % 256 == telem_map_major)
]

-- The sticky saturation bit of the status word; `none` where its overflow bit contradicts LAT_OVER.
unfoldable pub status_saturated : Dict ℕ → Option Bool
status_saturated words = elim (lookup a_status words) [
  | none ↦ some false
  | some st ↦ do
    over_val ← need words a_lat_over
    if st / 256 % 2 == 1 && over_val == 0 then none else some (st / 128 % 2 == 1)
]

-- What `__post_init__` of the snapshot and of the geometry accept.
unfoldable pub checked : HistogramSnapshot → Option HistogramSnapshot
checked s = if constructible s then some s else none

-- `decode_words` past the test of the version.
unfoldable pub read_words : Dict ℕ → Option HistogramSnapshot
read_words words = do
  cfg ← need words a_lat_cfg
  geometry ← lat_cfg_decode cfg
  buckets ← need_buckets words a_hist geometry.n_buckets
  sum_lo ← need words a_lat_sum_lo
  sum_hi ← need words a_lat_sum_hi
  saturated ← status_saturated words
  n ← need words a_lat_n
  min_cycles ← need words a_lat_min
  max_cycles ← need words a_lat_max
  over ← need words a_lat_over
  checked (record {
    geometry = geometry;
    buckets = buckets;
    n_samples = n;
    min_cycles = min_cycles;
    max_cycles = max_cycles;
    sum_cycles = bit_or (sum_hi * 2 ^ 32) sum_lo;
    over = over;
    saturated = saturated;
    last_cycles = lookup a_lat_last words;
    snap_seq = lookup a_snap_seq words;
  })

unfoldable pub decode_words : Dict ℕ → Bool → Option HistogramSnapshot
decode_words words strict = if version_ok words strict then read_words words else none
