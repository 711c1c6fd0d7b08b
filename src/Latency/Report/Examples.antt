-- ===== src/Latency/Report/Examples.antt =====
-- The report of a few latencies.
use market_data_handle.Prelude.{
  ◌≡◌, ◌≤◌, ◌⊎◌, refl, true, [], ◌∷◌, ◌++◌, map, member, All, length, drop, get_or, arith,
}
use market_data_handle.Text.{codes, to_string, digits}
use market_data_handle.Latency.{
  LatencyTracker, init, add_sample, num_buckets, raw_bucket, bucket_lower_ns, bucket_upper_ns,
  get_stats,
}
use market_data_handle.Latency.Report.{
  Row, csv_header, csv_line, export_csv, fmt_ns, peak_loop, histogram_rows, print_latency_histogram,
}
use market_data_handle.Latency.Report.Csv.{
  read_csv, csv_table, read_csv-export_csv, export_csv_upper,
}
use market_data_handle.Latency.Report.Bars.{filled, histogram_rows_bars}

-- Four samples in two buckets.
abbrev sampled : LatencyTracker
sampled = record init {
  buckets = 0 ∷ 0 ∷ 1 ∷ 0 ∷ 3 ∷ [];
  samples = 4;
  min_ns = 5;
  max_ns = 20;
  sum_ns = 60;
}

csv_line_run : csv_line sampled 4 ≡ codes "8,16,3" ++ b'\n' ∷ []
unfolding csv_line bucket_lower_ns bucket_upper_ns raw_bucket to_string digits
csv_line_run = refl

no_samples_run :
    print_latency_histogram init (codes "Parse") 40 ≡ codes "Parse: no samples" ++ b'\n' ∷ []
unfolding print_latency_histogram get_stats
no_samples_run = refl

fmt_ns_run : fmt_ns 2500000 ≡ codes "2ms  "
unfolding fmt_ns to_string digits
fmt_ns_run = refl

read_csv-export_csv_example :
    read_csv (drop (length csv_header) (export_csv sampled)) 0 [] ≡ csv_table sampled num_buckets 0
read_csv-export_csv_example = read_csv-export_csv sampled (omega arith)

export_csv_upper_example :
    All
      (λ r. (get_or r 2 0 ≡ 0) ⊎ (get_or r 1 0 ≤ 20))
      (read_csv (drop (length csv_header) (export_csv (add_sample init 20))) 0 [])
export_csv_upper_example = export_csv_upper 20 (omega arith) (omega arith)

histogram_rows_bars_example :
    (map (λ (r : Row). r.count) (histogram_rows sampled 40) ≡ filled sampled.buckets)
    × All (λ (r : Row). length r.bar ≤ 40) (histogram_rows sampled 40)
    × ((filled sampled.buckets ≡ [])
        ⊎ (member 40 (map (λ (r : Row). length r.bar) (histogram_rows sampled 40)) ≡ true))
unfolding peak_loop
histogram_rows_bars_example = histogram_rows_bars sampled 40 (omega arith)
