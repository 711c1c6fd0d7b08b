-- ===== src/Latency/Concurrent/Examples.antt =====
-- Two calls of `record` that get in each other's way at `min_` and at `max_`.
use mathlib.Core.List.{Permᴰ}
use market_data_handle.Prelude.{◌≡◌, refl, [], ◌∷◌, set, replicate, arith}
use market_data_handle.Latency.{init, num_buckets, bucket_for, bump}
use market_data_handle.Latency.Samples.{add_all}
use market_data_handle.Latency.Concurrent.{
  finished, bump_bucket, load_min, swap_min, retry_min, skip_min, load_max, swap_max, retry_max,
  skip_max, add_sum, add_count, System, enter, go_on, Reach, start, later,
}
use market_data_handle.Latency.Concurrent.Quiescence.{quiescent-add_all}

abbrev both_through : System
both_through = record {
  tracker = record {
    buckets = set (set (replicate num_buckets 0) 8 1) 2 1;
    min_ns = 7;
    max_ns = 300;
    sum_ns = 307;
    samples = 2;
  };
  calls = record { sample = 7; phase = finished } ∷ record { sample = 300; phase = finished } ∷ [];
}

both_through_reachable : Reach both_through
unfolding bucket_for bump
both_through_reachable =
    let a = later (later start (enter 300)) (enter 7) in
    let b = later (later a (go_on 1 300 refl bump_bucket)) (go_on 0 7 refl bump_bucket) in
    let c = later (later b (go_on 1 300 refl load_min)) (go_on 0 7 refl load_min) in
    let d = later c (go_on 0 7 refl (swap_min (omega arith) refl)) in
    let e = later d (go_on 1 300 refl (retry_min (omega arith))) in
    let f = later e (go_on 1 300 refl (skip_min (omega arith))) in
    let g = later (later f (go_on 1 300 refl load_max)) (go_on 0 7 refl load_max) in
    let h = later g (go_on 1 300 refl (swap_max (omega arith) refl)) in
    let i = later h (go_on 0 7 refl (retry_max (omega arith))) in
    let j = later i (go_on 0 7 refl (skip_max (omega arith))) in
    let k = later (later j (go_on 0 7 refl add_sum)) (go_on 1 300 refl add_sum) in
    later (later k (go_on 1 300 refl add_count)) (go_on 0 7 refl add_count)

quiescent-add_all_example : both_through.tracker ≡ add_all init (300 ∷ 7 ∷ [])
quiescent-add_all_example =
    quiescent-add_all both_through (300 ∷ 7 ∷ []) both_through_reachable (refl, (refl, tt))
      ∣ Permᴰ.swap refl refl ∣₁
