-- ===== src/Latency.antt =====
-- include/latency_tracker.h and src/common/latency_tracker.cpp: the latency histogram.
-- Each atomic is a number of the record, and `record` is run as one thread runs it: the two
-- compare-exchange loops then succeed at once. Concurrent interleaves any number of calls of it.
pub mod Buckets
pub mod Samples
pub mod Ranks
pub mod Percentiles
pub mod Stats
pub mod Accuracy
pub mod Merge
pub mod Report
pub mod Concurrent
mod Examples
use market_data_handle.Prelude.{
  ℕ, zero, suc, ◌+◌, ◌-◌, ◌*◌, ◌/◌, ◌^◌, Bool, true, false, not, ◌&&◌, List, [], ◌∷◌, ltb, leb,
  ◌==◌, if◌then◌else◌, get_or, set, replicate, u64, u64_max,
}

abbrev pub num_buckets : ℕ
num_buckets = 64

pub record LatencyTracker : Type 0 where
  pub buckets : List ℕ  -- std::array<std::atomic<uint64_t>, 64>
  pub min_ns : ℕ  -- uint64_t, as the next three
  pub max_ns : ℕ
  pub sum_ns : ℕ
  pub samples : ℕ

-- The constructor.
abbrev pub init : LatencyTracker
init = record {
  buckets = replicate num_buckets 0;
  min_ns = u64_max;
  max_ns = 0;
  sum_ns = 0;
  samples = 0;
}

-- The zero bits above the highest one bit of a `w`-bit number: `__builtin_clzll` at `w = 64`.
unfoldable pub leading_zeros : ℕ → ℕ → ℕ
leading_zeros zero n = 0
leading_zeros (suc w) n = if ltb n (2 ^ w) then suc (leading_zeros w n) else 0

unfoldable pub bucket_for : ℕ → ℕ
unfolding leading_zeros
bucket_for ns =
    if ns == 0
    then 0
    else (let b = 63 - leading_zeros 64 ns in if ltb b num_buckets then b else num_buckets - 1)

unfoldable pub bucket_upper_ns : ℕ → ℕ
bucket_upper_ns i = if ltb i 63 then 2 ^ i else u64_max

-- `bucket_lower_ns` of the CSV export and of the printed histogram.
unfoldable pub bucket_lower_ns : ℕ → ℕ
bucket_lower_ns i = if i == 0 then 0 else 2 ^ (i - 1)

unfoldable pub raw_bucket : LatencyTracker → ℕ → ℕ
raw_bucket t i = get_or t.buckets i 0

-- `buckets_[i].fetch_add(1)`
unfoldable pub bump : List ℕ → ℕ → List ℕ
bump bs i = set bs i (u64 (get_or bs i 0 + 1))

-- `record(latency_ns)`
unfoldable pub add_sample : LatencyTracker → ℕ → LatencyTracker
unfolding bump
add_sample t ns = record {
  buckets = bump t.buckets (bucket_for ns);
  min_ns = if ltb ns t.min_ns then ns else t.min_ns;
  max_ns = if ltb t.max_ns ns then ns else t.max_ns;
  sum_ns = u64 (t.sum_ns + ns);
  samples = u64 (t.samples + 1);
}

unfoldable pub reset : LatencyTracker → LatencyTracker
reset t = init

pub record LatencyStats : Type 0 where
  pub min_ns : ℕ
  pub max_ns : ℕ
  pub mean_ns : ℕ
  pub p50_ns : ℕ
  pub p95_ns : ℕ
  pub p99_ns : ℕ
  pub p999_ns : ℕ
  pub sample_count : ℕ

abbrev pub no_stats : LatencyStats
no_stats = record {
  min_ns = 0;
  max_ns = 0;
  mean_ns = 0;
  p50_ns = 0;
  p95_ns = 0;
  p99_ns = 0;
  p999_ns = 0;
  sample_count = 0;
}

-- One percentile of the loop in `get_stats`: its value and its `done` flag.
pub record Mark : Type 0 where
  pub value : ℕ
  pub done : Bool

pub record Marks : Type 0 where
  pub p50 : Mark
  pub p95 : Mark
  pub p99 : Mark
  pub p999 : Mark

pub record Targets : Type 0 where
  pub t50 : ℕ
  pub t95 : ℕ
  pub t99 : ℕ
  pub t999 : ℕ

abbrev pub unset : Mark
unset = record { value = 0; done = false }

abbrev pub unset_marks : Marks
unset_marks = record { p50 = unset; p95 = unset; p99 = unset; p999 = unset }

-- `if (!done && cumul >= target) { value = bucket_upper; done = true; }`
unfoldable pub mark : Mark → ℕ → ℕ → ℕ → Mark
mark m target cumul upper =
    if not m.done && leb target cumul then record { value = upper; done = true } else m

-- The loop of `get_stats` from bucket `i` on, over the buckets that are left. The `break` follows
-- the setting of `p999`.
unfoldable pub percentile_loop : Targets → ℕ → List ℕ → ℕ → Marks → Marks
unfolding mark bucket_upper_ns
percentile_loop t i [] cumul m = m
percentile_loop t i (b ∷ bs) cumul m =
    let c = u64 (cumul + b) in
    let upper = bucket_upper_ns i in
    let m' : Marks = record {
      p50 = mark m.p50 t.t50 c upper;
      p95 = mark m.p95 t.t95 c upper;
      p99 = mark m.p99 t.t99 c upper;
      p999 = mark m.p999 t.t999 c upper;
    } in
    let next = percentile_loop t (i + 1) bs c m' in
    if not m.p999.done && leb t.t999 c then m' else next

abbrev pub targets_of : ℕ → Targets
targets_of n = record {
  t50 = n / 2;
  t95 = u64 (n * 95) / 100;
  t99 = u64 (n * 99) / 100;
  t999 = u64 (n * 999) / 1000;
}

unfoldable pub get_stats : LatencyTracker → LatencyStats
get_stats t =
    let m = percentile_loop (targets_of t.samples) 0 t.buckets 0 unset_marks in
    if t.samples == 0 then no_stats else record {
      min_ns = t.min_ns;
      max_ns = t.max_ns;
      mean_ns = t.sum_ns / t.samples;
      p50_ns = m.p50.value;
      p95_ns = m.p95.value;
      p99_ns = m.p99.value;
      p999_ns = m.p999.value;
      sample_count = t.samples;
    }

-- `for (j = 0; j < cnt; ++j) dst.record(val)`
unfoldable pub add_samples : ℕ → ℕ → LatencyTracker → LatencyTracker
add_samples zero v t = t
add_samples (suc n) v t = add_samples n v (add_sample t v)

-- The loop of `merge_latency_trackers` from bucket `i` on, over the source's buckets that are left.
unfoldable pub merge_loop : ℕ → List ℕ → LatencyTracker → LatencyTracker
merge_loop i [] dst = dst
merge_loop i (cnt ∷ bs) dst = merge_loop (i + 1) bs (add_samples cnt (bucket_upper_ns i) dst)

unfoldable pub merge_latency_trackers : LatencyTracker → LatencyTracker → LatencyTracker
merge_latency_trackers dst src = merge_loop 0 src.buckets dst
