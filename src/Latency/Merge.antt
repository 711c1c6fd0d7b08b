-- ===== src/Latency/Merge.antt =====
-- `merge_latency_trackers`: the buckets and the count add up.
use market_data_handle.Prelude.{
  ℕ, zero, suc, ◌+◌, ◌≤◌, ◌<◌, ◌^◌, ◌≡◌, refl, ap, sym, ◌∙◌, List, [], ◌∷◌, ◌++◌, ◌==◌,
  if◌then◌else◌, length, get_or, replicate, arith, u64, length-append, length-replicate,
}
use market_data_handle.Latency.{
  LatencyTracker, num_buckets, bucket_for, bucket_upper_ns, raw_bucket, add_sample, add_samples,
  merge_loop, merge_latency_trackers,
}
use market_data_handle.Latency.Buckets.{bucket_for-bucket_upper_ns}
use market_data_handle.Latency.Samples.{
  add_all, count_in, total, add_all-raw_bucket, add_all-totals,
}

-- The samples that a merge records for the source's buckets from number `i` on.
expand : ℕ → List ℕ → List ℕ
expand i [] = []
expand i (b ∷ bs) = replicate b (bucket_upper_ns i) ++ expand (i + 1) bs

add_samples-add_all : (n v : ℕ) (t : LatencyTracker) → add_samples n v t ≡ add_all t (replicate n v)
unfolding add_samples add_all
add_samples-add_all zero v t = refl
add_samples-add_all (suc n) v t = add_samples-add_all n v (add_sample t v)

add_all-append :
    (t : LatencyTracker) (xs ys : List ℕ) → add_all t (xs ++ ys) ≡ add_all (add_all t xs) ys
unfolding add_all
add_all-append t [] ys = refl
add_all-append t (x ∷ xs) ys = add_all-append (add_sample t x) xs ys

merge_loop-add_all :
    (i : ℕ) (bs : List ℕ) (dst : LatencyTracker) → merge_loop i bs dst ≡ add_all dst (expand i bs)
unfolding expand merge_loop
merge_loop-add_all i [] dst = unfold add_all in refl
merge_loop-add_all i (b ∷ bs) dst =
    merge_loop-add_all (i + 1) bs (add_samples b (bucket_upper_ns i) dst)
    ∙ ap (λ t. add_all t (expand (i + 1) bs)) (add_samples-add_all b (bucket_upper_ns i) dst)
    ∙ sym (add_all-append dst (replicate b (bucket_upper_ns i)) (expand (i + 1) bs))

count_in-append : (j : ℕ) (xs ys : List ℕ) → count_in j (xs ++ ys) ≡ count_in j xs + count_in j ys
count_in-append j [] ys = omega arith
count_in-append j (x ∷ xs) ys = omega (arith, count_in-append j xs ys)

count_in-replicate : (j n v : ℕ) → count_in j (replicate n v) ≡ (if bucket_for v == j then n else 0)
count_in-replicate j zero v = ground arith
count_in-replicate j (suc n) v = ground (arith, count_in-replicate j n v)

count_in-expand_cons :
    (i k b : ℕ) (bs : List ℕ)
    → i < num_buckets
    → count_in k (expand i (b ∷ bs)) ≡ (if i == k then b else 0) + count_in k (expand (i + 1) bs)
unfolding expand
count_in-expand_cons i k b bs lt =
    count_in-append k (replicate b (bucket_upper_ns i)) (expand (i + 1) bs)
    ∙ ap (λ n. n + count_in k (expand (i + 1) bs))
        (count_in-replicate k b (bucket_upper_ns i)
          ∙ ap (λ j. if j == k then b else 0) (bucket_for-bucket_upper_ns i lt))

-- No sample of a later bucket falls into an earlier one.
count_in-expand_past :
    (i k : ℕ) (bs : List ℕ) → k < i → i + length bs ≤ num_buckets → count_in k (expand i bs) ≡ 0
count_in-expand_past i k [] lt fits = unfold expand in refl
count_in-expand_past i k (b ∷ bs) lt fits = ground (
  arith,
  count_in-expand_cons i k b bs (omega arith),
  count_in-expand_past (i + 1) k bs (omega arith) (omega arith),
)

-- Each bucket of the source comes back, whatever the samples were that it counted.
count_in-expand :
    (i j k : ℕ) (bs : List ℕ)
    → k ≡ i + j
    → i + length bs ≤ num_buckets
    → count_in k (expand i bs) ≡ get_or bs j 0
count_in-expand i j k [] e fits = unfold expand in refl
count_in-expand i zero k (b ∷ bs) e fits = ground (
  arith,
  count_in-expand_cons i k b bs (omega arith),
  count_in-expand_past (i + 1) k bs (omega arith) (omega arith),
)
count_in-expand i (suc j) k (b ∷ bs) e fits = ground (
  arith,
  count_in-expand_cons i k b bs (omega arith),
  count_in-expand (i + 1) j k bs (omega arith) (omega arith),
)

length-expand : (i : ℕ) (bs : List ℕ) → length (expand i bs) ≡ total bs
unfolding expand
length-expand i [] = refl
length-expand i (b ∷ bs) = omega (
  arith,
  length-append (replicate b (bucket_upper_ns i)) (expand (i + 1) bs),
  length-replicate b (bucket_upper_ns i),
  length-expand (i + 1) bs,
)

-- Each bucket of the merged tracker is the sum of the two, and its sample count grows by the
-- number of samples in the source's buckets (both modulo 2 ^ 64).
pub merge_latency_trackers-raw_bucket :
    (dst src : LatencyTracker) (i : ℕ)
    → length dst.buckets ≡ num_buckets
    → length src.buckets ≡ num_buckets
    → i < num_buckets
    → raw_bucket dst i < 2 ^ 64
    → dst.sum_ns < 2 ^ 64
    → dst.samples < 2 ^ 64
    → let t = merge_latency_trackers dst src in
      (raw_bucket t i ≡ u64 (raw_bucket dst i + raw_bucket src i))
      × (t.samples ≡ u64 (dst.samples + total src.buckets))
unfolding merge_latency_trackers
merge_latency_trackers-raw_bucket dst src i wd ws lt small hs hn =
    let xs : List ℕ = expand 0 src.buckets in
    let counted : count_in i xs ≡ raw_bucket src i =
      unfold raw_bucket in count_in-expand 0 i i src.buckets (omega arith) (omega arith) in
    let (_, _, _, samples) = add_all-totals xs dst hs hn in
    rw (merge_loop-add_all 0 src.buckets dst) (
      add_all-raw_bucket xs dst i (omega arith) small
          ∙ ap (λ n. u64 (raw_bucket dst i + n)) counted,
      samples ∙ ap (λ n. u64 (dst.samples + n)) (length-expand 0 src.buckets),
    )
