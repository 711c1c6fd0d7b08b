-- ===== src/Latency/Report.antt =====
-- What is shown of the latencies: `export_csv` of include/latency_tracker.h and
-- `print_latency_histogram` of src/common/latency_tracker.cpp, as the bytes that are written.
pub mod Csv
pub mod Bars
mod Examples
use market_data_handle.Prelude.{
  ℕ, zero, suc, ◌+◌, ◌*◌, ◌/◌, Bool, List, [], ◌∷◌, ◌++◌, map, concat, ltb, leb, ◌==◌,
  if◌then◌else◌, replicate, u64, u64_max,
}
use market_data_handle.Text.{codes, to_string, left}
use market_data_handle.Latency.{
  LatencyTracker, LatencyStats, get_stats, raw_bucket, num_buckets, bucket_lower_ns,
  bucket_upper_ns,
}

abbrev pub csv_header : List ℕ
csv_header = codes "bucket_lower_ns,bucket_upper_ns,count" ++ b'\n' ∷ []

unfoldable pub csv_line : LatencyTracker → ℕ → List ℕ
csv_line t i =
    to_string (bucket_lower_ns i)
    ++ b',' ∷ to_string (bucket_upper_ns i)
    ++ b',' ∷ to_string (raw_bucket t i)
    ++ b'\n' ∷ []

-- The loop over the buckets, from `i` on with `n` rounds left.
unfoldable pub csv_lines : LatencyTracker → ℕ → ℕ → List ℕ
unfolding csv_line
csv_lines t zero i = []
csv_lines t (suc n) i = csv_line t i ++ csv_lines t n (suc i)

unfoldable pub export_csv : LatencyTracker → List ℕ
unfolding csv_lines
export_csv t = csv_header ++ csv_lines t num_buckets 0

-- The bytes of the letters outside ASCII.
abbrev pub micro : List ℕ
micro = 0xce ∷ 0xbc ∷ []

abbrev pub infinity : List ℕ
infinity = 0xe2 ∷ 0x88 ∷ 0x9e ∷ []

abbrev pub dash : List ℕ
dash = 0xe2 ∷ 0x80 ∷ 0x93 ∷ []

abbrev pub bar_edge : List ℕ
bar_edge = 0xe2 ∷ 0x94 ∷ 0x82 ∷ []

unfoldable pub fmt_ns : ℕ → List ℕ
fmt_ns ns =
    if ns == u64_max
    then codes "  " ++ infinity ++ codes "    "
    else if leb 1000000000 ns
    then to_string (ns / 1000000000) ++ codes "s   "
    else if leb 1000000 ns
    then to_string (ns / 1000000) ++ codes "ms  "
    else if leb 1000 ns
    then to_string (ns / 1000) ++ micro ++ codes "s  "
    else to_string ns ++ codes "ns  "

-- The loop for `peak`, over the buckets that are left.
unfoldable pub peak_loop : List ℕ → ℕ → ℕ
peak_loop [] peak = peak
peak_loop (cnt ∷ cs) peak = peak_loop cs (if ltb peak cnt then cnt else peak)

-- A line of the histogram: its label, its bar and its count.
pub record Row : Type 0 where
  pub label : List ℕ
  pub bar : List ℕ
  pub count : ℕ

unfoldable pub row : ℕ → ℕ → ℕ → ℕ → Row
unfolding fmt_ns
row width peak i cnt = record {
  label = fmt_ns (bucket_lower_ns i) ++ dash ++ codes " " ++ fmt_ns (bucket_upper_ns i);
  bar = replicate (u64 (cnt * width) / peak) b'=';
  count = cnt;
}

-- The loop over the buckets, from `i` on; an empty one has no line.
unfoldable pub rows : ℕ → ℕ → ℕ → List ℕ → List Row
unfolding row
rows width peak i [] = []
rows width peak i (cnt ∷ cs) =
    let more = rows width peak (suc i) cs in if cnt == 0 then more else row width peak i cnt ∷ more

unfoldable pub show_row : Row → List ℕ
show_row r =
    codes "  "
    ++ left 32 24 r.label
    ++ codes " "
    ++ bar_edge
    ++ r.bar
    ++ codes " "
    ++ to_string r.count
    ++ b'\n' ∷ []

unfoldable pub histogram_rows : LatencyTracker → ℕ → List Row
unfolding rows peak_loop
histogram_rows t width = rows width (peak_loop t.buckets 0) 0 t.buckets

abbrev line : List ℕ → ℕ → List ℕ
line name ns = codes "  " ++ name ++ to_string ns ++ codes " ns" ++ b'\n' ∷ []

unfoldable pub print_latency_histogram : LatencyTracker → List ℕ → ℕ → List ℕ
unfolding histogram_rows show_row peak_loop
print_latency_histogram t title width =
    let st = get_stats t in
    let head =
      b'\n' ∷ codes "=== "
      ++ title
      ++ codes " ==="
      ++ b'\n' ∷ codes "  Samples : "
      ++ to_string st.sample_count
      ++ b'\n' ∷ line (codes "Min     : ") st.min_ns
      ++ line (codes "Mean    : ") st.mean_ns
      ++ line (codes "p50     : ") st.p50_ns
      ++ line (codes "p95     : ") st.p95_ns
      ++ line (codes "p99     : ") st.p99_ns
      ++ line (codes "p999    : ") st.p999_ns
      ++ line (codes "Max     : ") st.max_ns
      ++ b'\n' ∷ [] in
    let shown = concat (map show_row (histogram_rows t width)) ++ b'\n' ∷ [] in
    if st.sample_count == 0
    then title ++ codes ": no samples" ++ b'\n' ∷ []
    else if peak_loop t.buckets 0 == 0
    then head
    else head ++ shown
