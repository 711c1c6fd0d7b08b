-- ===== src/Latency/Stats.antt =====
-- What `get_stats` reports of the samples that were recorded.
use mathlib.Core.Path.{subst}
use market_data_handle.Prelude.{
  ℕ, suc, ◌*◌, ◌/◌, ◌≤◌, ◌<◌, ◌^◌, ◌≡◌, refl, ap, sym, ◌∙◌, List, ◌==◌, false, length, take, arith,
  u64, take_all,
}
use market_data_handle.Latency.{
  LatencyTracker, init, num_buckets, unset_marks, bucket_upper_ns, targets_of, get_stats,
}
use market_data_handle.Latency.Samples.{add_all, total, add_all-totals}
use market_data_handle.Latency.Ranks.{
  below, length-add_all, total-take-add_all, total-take-zero, below_all,
}
use market_data_handle.Latency.Percentiles.{
  first_reaching, percentile_loop_ends, first_reaching_lem, first_reaching_mono,
}

-- The percentile of a target is what a search of its own finds.
abbrev pub search_for : ℕ → LatencyTracker → ℕ
search_for target t = first_reaching 0 target 0 t.buckets 0

-- The one pass of `get_stats`, with its flags and its early `break`, finds for each of the four
-- percentiles the bucket that a search for that percentile alone finds.
pub get_stats_percentiles :
    (t : LatencyTracker)
    → 0 < t.samples
    → t.samples * 999 < 2 ^ 64
    → let st = get_stats t in
      let n = t.samples in
      (st.p50_ns ≡ search_for (n / 2) t)
      × (st.p95_ns ≡ search_for (n * 95 / 100) t)
      × (st.p99_ns ≡ search_for (n * 99 / 100) t)
      × (st.p999_ns ≡ search_for (n * 999 / 1000) t)
unfolding get_stats
get_stats_percentiles t pos room =
    let n : ℕ = t.samples in
    let nz : (n == 0) ≡ false = ground arith in
    let e95 : u64 (n * 95) / 100 ≡ n * 95 / 100 = omega arith in
    let e99 : u64 (n * 99) / 100 ≡ n * 99 / 100 = omega arith in
    let e999 : u64 (n * 999) / 1000 ≡ n * 999 / 1000 = omega arith in
    let (q50, q95, q99, q999) =
      percentile_loop_ends (targets_of n) 0 t.buckets 0 unset_marks (omega arith) refl in
    rw nz (
      q50,
      q95 ∙ ap (λ k. search_for k t) e95,
      q99 ∙ ap (λ k. search_for k t) e99,
      q999 ∙ ap (λ k. search_for k t) e999,
    )

-- The four reported percentiles are those of `n` samples.
abbrev PercentilesAt : LatencyTracker → ℕ → Type 0
PercentilesAt t n =
    ((get_stats t).p50_ns ≡ search_for (n / 2) t)
    × ((get_stats t).p95_ns ≡ search_for (n * 95 / 100) t)
    × ((get_stats t).p99_ns ≡ search_for (n * 99 / 100) t)
    × ((get_stats t).p999_ns ≡ search_for (n * 999 / 1000) t)

module _ (xs : List ℕ) (some_xs : 0 < length xs) (room : length xs * 999 < 2 ^ 64) where
  abbrev pub recorded : LatencyTracker
  recorded = add_all init xs

  recorded_samples : recorded.samples ≡ length xs
  recorded_samples =
      let (_, _, _, ct) = add_all-totals xs init (omega arith) (omega arith) in omega arith

  recorded_below : (k : ℕ) → total (take k recorded.buckets) ≡ below k xs
  recorded_below k =
      omega (arith, total-take-add_all xs init k refl (omega arith), total-take-zero num_buckets k)

  recorded_total : total recorded.buckets ≡ length xs
  recorded_total =
      let all : take num_buckets recorded.buckets ≡ recorded.buckets =
        take_all num_buckets recorded.buckets (omega (arith, length-add_all xs init)) in
      sym (ap total all) ∙ recorded_below num_buckets ∙ below_all xs

  -- The four percentiles of the recorded samples, as searches with targets in their number.
  pub recorded_percentiles :
      let st = get_stats recorded in
      let n = length xs in
      (st.p50_ns ≡ search_for (n / 2) recorded)
      × (st.p95_ns ≡ search_for (n * 95 / 100) recorded)
      × (st.p99_ns ≡ search_for (n * 99 / 100) recorded)
      × (st.p999_ns ≡ search_for (n * 999 / 1000) recorded)
  recorded_percentiles =
      subst (λ n. PercentilesAt recorded n) recorded_samples
        (get_stats_percentiles recorded (omega (arith, recorded_samples))
          (omega (arith, recorded_samples)))

  search_mono : (s t : ℕ) → s ≤ t → t ≤ length xs → search_for s recorded ≤ search_for t recorded
  search_mono s t le fits =
      let e = recorded_total in
      first_reaching_mono 0 s t 0 recorded.buckets 0 le (omega arith) (omega arith)

  -- The reported percentiles rise: p50 ≤ p95 ≤ p99 ≤ p999.
  pub get_stats_monotone :
      let st = get_stats (add_all init xs) in
      (st.p50_ns ≤ st.p95_ns) × (st.p95_ns ≤ st.p99_ns) × (st.p99_ns ≤ st.p999_ns)
  get_stats_monotone =
      let (q50, q95, q99, q999) = recorded_percentiles in
      let n : ℕ = length xs in
      rw (q50, q95, q99, q999)
        (
          search_mono (n / 2) (n * 95 / 100) (omega arith) (omega arith),
          search_mono (n * 95 / 100) (n * 99 / 100) (omega arith) (omega arith),
          search_mono (n * 99 / 100) (n * 999 / 1000) (omega arith) (omega arith),
        )

  -- A positive target is found at the bucket where the count of the samples first reaches it.
  pub search_located :
      (target : ℕ)
      → 0 < target
      → target ≤ length xs
      → (k : ℕ) × (k < num_buckets)
        × (search_for target recorded ≡ bucket_upper_ns k)
        × (below k xs < target)
        × (target ≤ below (suc k) xs)
  search_located target pos fits =
      let e = recorded_total in
      let (k, at, small, lo, hi) =
        first_reaching_lem 0 target 0 recorded.buckets 0 pos (omega arith) (omega arith) in
      (
        k,
        omega (arith, length-add_all xs init),
        at ∙ ap bucket_upper_ns (omega arith),
        omega (arith, recorded_below k),
        omega (arith, recorded_below (suc k)),
      )
