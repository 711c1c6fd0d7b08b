-- ===== src/Latency/Accuracy.antt =====
-- How close the reported percentiles and mean are to the samples.
use native.Mathlib.Nat.{le-div_iff_mul-le, div-le_of_le-mul, pow-suc, pow-le-pow_right}
use native.Mathlib.Decide.{dec_lt}
use market_data_handle.Prelude.{
  ℕ, suc, ◌+◌, ◌*◌, ◌/◌, ◌≤◌, ◌<◌, ◌^◌, ◌≡◌, refl, ◌∙◌, List, [], ◌∷◌, ltb, if◌then◌else◌, ◌==◌,
  false, ap₂, length, min, max, All, arith, u64_max,
}
use market_data_handle.Latency.{init, bucket_for, bucket_upper_ns, get_stats}
use market_data_handle.Latency.Buckets.{bucket_for_bounds, exponent_le}
use market_data_handle.Latency.Samples.{add_all, total, least, greatest, add_all-totals}
use market_data_handle.Latency.Ranks.{length-add_all, below, below_mono}
use market_data_handle.Latency.Percentiles.{first_reaching}
use market_data_handle.Latency.Stats.{recorded_percentiles, search_located, search_for}

-- How many samples are less than `v`.
abbrev pub count_lt : ℕ → List ℕ → ℕ
count_lt v [] = 0
count_lt v (x ∷ xs) = (if ltb x v then 1 else 0) + count_lt v xs

-- A latency that falls into one of the buckets with a power of two for its bound.
abbrev pub IsPlain : ℕ → Type 0
IsPlain x = (0 < x) × (x < 2 ^ 63)

-- Fewer than `target` samples are less than `p`, and at least `target` less than twice `p`.
abbrev pub IsRank : List ℕ → ℕ → ℕ → Type 0
IsRank xs target p = (count_lt p xs < target) × (target ≤ count_lt (2 * p) xs)

lt_pow_iff : (x k : ℕ) → IsPlain x → ltb x (2 ^ k) ≡ ltb (bucket_for x) k
lt_pow_iff x k (pos, lt) =
    let b : ℕ = bucket_for x in
    let (_, lo, hi) = bucket_for_bounds x pos (omega arith) in
    elim (dec_lt b k) [
      | yes p ↦
          let le : 2 ^ suc b ≤ 2 ^ k =
            pow-le-pow_right {n = 2} (omega arith) {i = suc b} {j = k} p in
          ground arith
      | no np ↦
          let le : 2 ^ k ≤ 2 ^ b =
            pow-le-pow_right {n = 2} (omega arith) {i = k} {j = b} (omega arith) in
          ground arith
    ]

count_lt-below : (k : ℕ) (xs : List ℕ) → All IsPlain xs → count_lt (2 ^ k) xs ≡ below k xs
count_lt-below k [] plain = refl
count_lt-below k (x ∷ xs) (p, ps) = rw (lt_pow_iff x k p, count_lt-below k xs ps)

below_plain : (xs : List ℕ) → All IsPlain xs → below 63 xs ≡ length xs
below_plain [] plain = refl
below_plain (x ∷ xs) ((pos, lt), ps) =
    let (_, lo, _) = bucket_for_bounds x pos (omega arith) in
    let low = exponent_le (bucket_for x) 62 x lo lt in ground (arith, below_plain xs ps)

bucket_upper_ns_low : (k : ℕ) → k < 63 → bucket_upper_ns k ≡ 2 ^ k
unfolding bucket_upper_ns
bucket_upper_ns_low k lt = ground arith

search-IsRank :
    (xs : List ℕ)
    → 0 < length xs
    → length xs * 999 < 2 ^ 64
    → All IsPlain xs
    → (target : ℕ) → 0 < target
    → target ≤ length xs
    → IsRank xs target (search_for target (add_all init xs))
search-IsRank xs some_xs room plain target pos fits =
    let (k, small, at, lo, hi) = search_located xs some_xs room target pos fits in
    let low : k < 63 = elim (dec_lt k 63) [
      | yes p ↦ p
      | no np ↦ absurd (omega (arith, below_plain xs plain, below_mono 63 k xs (omega arith)))
    ] in
    let value : search_for target (add_all init xs) ≡ 2 ^ k = at ∙ bucket_upper_ns_low k low in
    let double : 2 * 2 ^ k ≡ 2 ^ suc k = omega (arith, pow-suc 2 k) in
    rw value
      (omega (arith, count_lt-below k xs plain), rw (double, count_lt-below (suc k) xs plain) hi)

-- Of two or more samples, each reported percentile is a lower bound that is off by less than a
-- factor of two: fewer samples than its target are less than it, and at least as many as its target
-- are less than twice it.
pub get_stats_ranks :
    (xs : List ℕ)
    → 2 ≤ length xs
    → length xs * 999 < 2 ^ 64
    → All IsPlain xs
    → let st = get_stats (add_all init xs) in
      let n = length xs in
      IsRank xs (n / 2) st.p50_ns
      × IsRank xs (n * 95 / 100) st.p95_ns
      × IsRank xs (n * 99 / 100) st.p99_ns
      × IsRank xs (n * 999 / 1000) st.p999_ns
get_stats_ranks xs many room plain =
    let (q50, q95, q99, q999) = recorded_percentiles xs (omega arith) room in
    let rank = search-IsRank xs (omega arith) room plain in
    let n : ℕ = length xs in
    rw (q50, q95, q99, q999)
      (
        rank (n / 2) (omega arith) (omega arith),
        rank (n * 95 / 100) (omega arith) (omega arith),
        rank (n * 99 / 100) (omega arith) (omega arith),
        rank (n * 999 / 1000) (omega arith) (omega arith),
      )

search_zero : (bs : List ℕ) → 0 < length bs → first_reaching 0 0 0 bs 0 ≡ 1
unfolding first_reaching bucket_upper_ns
search_zero [] pos = absurd (omega arith)
search_zero (b ∷ bs) pos = ground arith

-- Of a single sample, whatever it is, all four reported percentiles are 1.
pub get_stats_lone :
    (x : ℕ)
    → let st = get_stats (add_all init (x ∷ [])) in
      (st.p50_ns ≡ 1) × (st.p95_ns ≡ 1) × (st.p99_ns ≡ 1) × (st.p999_ns ≡ 1)
get_stats_lone x =
    let (q50, q95, q99, q999) = recorded_percentiles (x ∷ []) (omega arith) (omega arith) in
    let zero_target : search_for 0 (add_all init (x ∷ [])) ≡ 1 =
      search_zero _ (omega (arith, length-add_all (x ∷ []) init)) in
    (q50 ∙ zero_target, q95 ∙ zero_target, q99 ∙ zero_target, q999 ∙ zero_target)

least-mul-le : (m : ℕ) (xs : List ℕ) → (least m xs ≤ m) × (least m xs * length xs ≤ total xs)
least-mul-le m [] = (omega arith, omega arith)
least-mul-le m (x ∷ xs) = let (le, all) = least-mul-le (min m x) xs in (omega arith, grind arith)

greatest-mul-ge :
    (m : ℕ) (xs : List ℕ) → (m ≤ greatest m xs) × (total xs ≤ greatest m xs * length xs)
greatest-mul-ge m [] = (omega arith, omega arith)
greatest-mul-ge m (x ∷ xs) =
    let (ge, all) = greatest-mul-ge (max m x) xs in (omega arith, grind arith)

-- The reported mean lies between the reported least and greatest latency, unless the sum wrapped.
pub get_stats_mean :
    (xs : List ℕ)
    → 0 < length xs
    → length xs < 2 ^ 64
    → total xs < 2 ^ 64
    → let st = get_stats (add_all init xs) in
      (st.min_ns ≤ st.mean_ns) × (st.mean_ns ≤ st.max_ns) × (st.mean_ns ≡ total xs / length xs)
unfolding get_stats
get_stats_mean xs pos few small =
    let (mn, mx, sm, ct) = add_all-totals xs init (omega arith) (omega arith) in
    let n : (add_all init xs).samples ≡ length xs = omega arith in
    let mean : (add_all init xs).sum_ns / (add_all init xs).samples ≡ total xs / length xs =
      ap₂ ◌/◌ (omega arith) n in
    let nz : ((add_all init xs).samples == 0) ≡ false = ground arith in
    let lo =
      (le-div_iff_mul-le {x = least u64_max xs} {y = total xs} pos).1 (least-mul-le u64_max xs).1 in
    let hi =
      div-le_of_le-mul (length xs) {m = total xs} {n = greatest 0 xs}
        (omega (arith, (greatest-mul-ge 0 xs).1)) in
    rw nz (omega arith, omega arith, mean)
