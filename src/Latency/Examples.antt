-- ===== src/Latency/Examples.antt =====
-- Runs of the latency histogram at concrete samples.
use market_data_handle.Prelude.{ℕ, suc, ◌*◌, ◌/◌, ◌≤◌, ◌<◌, ◌^◌, ◌≡◌, List, [], ◌∷◌, arith, u64_max}
use market_data_handle.Latency.{
  init, num_buckets, bucket_for, bucket_upper_ns, raw_bucket, get_stats, add_sample,
}
use market_data_handle.Latency.Buckets.{bucket_for_bounds, bucket_for-bucket_upper_ns}
use market_data_handle.Latency.Samples.{add_all, total, least, greatest, count_in, add_all_exact}
use market_data_handle.Latency.Stats.{search_for, get_stats_percentiles}
use market_data_handle.Latency.Accuracy.{IsRank, get_stats_ranks}

abbrev latencies : List ℕ
latencies = 100 ∷ 300 ∷ 5000 ∷ 70 ∷ []

bucket_for_bounds_example :
    (bucket_for 300 < num_buckets) × (2 ^ bucket_for 300 ≤ 300) × (300 < 2 ^ suc (bucket_for 300))
bucket_for_bounds_example = bucket_for_bounds 300 (omega arith) (omega arith)

bucket_for-bucket_upper_ns_example : bucket_for (bucket_upper_ns 63) ≡ 63
bucket_for-bucket_upper_ns_example = bucket_for-bucket_upper_ns 63 (omega arith)

add_all_exact_example :
    let t = add_all init latencies in
    (t.samples ≡ 4)
    × (t.sum_ns ≡ total latencies)
    × (t.min_ns ≡ least u64_max latencies)
    × (t.max_ns ≡ greatest 0 latencies)
    × (raw_bucket t 6 ≡ count_in 6 latencies)
add_all_exact_example = add_all_exact latencies 6 (omega arith) (omega arith) (omega arith)

get_stats_ranks_example :
    let st = get_stats (add_all init latencies) in
    IsRank latencies 2 st.p50_ns
    × IsRank latencies 3 st.p95_ns
    × IsRank latencies 3 st.p99_ns
    × IsRank latencies 3 st.p999_ns
get_stats_ranks_example = get_stats_ranks latencies (omega arith) (omega arith) (omega arith)

get_stats_percentiles_example :
    let t = add_sample init 300 in
    let st = get_stats t in
    (st.p50_ns ≡ search_for (t.samples / 2) t)
    × (st.p95_ns ≡ search_for (t.samples * 95 / 100) t)
    × (st.p99_ns ≡ search_for (t.samples * 99 / 100) t)
    × (st.p999_ns ≡ search_for (t.samples * 999 / 1000) t)
unfolding add_sample
get_stats_percentiles_example =
    get_stats_percentiles (add_sample init 300) (omega arith) (omega arith)
