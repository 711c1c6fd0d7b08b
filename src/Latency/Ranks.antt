-- ===== src/Latency/Ranks.antt =====
-- Sums over the first buckets count the samples of those buckets.
use market_data_handle.Prelude.{
  ℕ, zero, suc, ◌+◌, ◌≤◌, ◌<◌, ◌^◌, ◌≡◌, refl, ap, ◌∙◌, List, [], ◌∷◌, ltb, if◌then◌else◌, length,
  get_or, set, take, replicate, arith, u64, take_all,
}
use market_data_handle.Latency.{LatencyTracker, num_buckets, bucket_for, bump, add_sample}
use market_data_handle.Latency.Buckets.{bucket_for-lt}
use market_data_handle.Latency.Samples.{add_all, total, length-add_sample}

-- How many samples fall into the buckets below `k`.
abbrev pub below : ℕ → List ℕ → ℕ
below k [] = 0
below k (x ∷ xs) = (if ltb (bucket_for x) k then 1 else 0) + below k xs

get_or-le-total : (bs : List ℕ) (j : ℕ) → get_or bs j 0 ≤ total bs
get_or-le-total [] j = omega arith
get_or-le-total (b ∷ bs) zero = omega arith
get_or-le-total (b ∷ bs) (suc j) = omega (arith, get_or-le-total bs j)

total-take-set :
    (bs : List ℕ) (j k : ℕ)
    → j < length bs
    → total (take k (set bs j (get_or bs j 0 + 1))) ≡ total (take k bs) + (if ltb j k then 1 else 0)
total-take-set [] j k lt = absurd (omega arith)
total-take-set (b ∷ bs) zero zero lt = ground arith
total-take-set (b ∷ bs) zero (suc k) lt = ground arith
total-take-set (b ∷ bs) (suc j) zero lt = ground arith
total-take-set (b ∷ bs) (suc j) (suc k) lt = ground (arith, total-take-set bs j k (omega arith))

total-take-add_sample :
    (t : LatencyTracker) (x k : ℕ)
    → length t.buckets ≡ num_buckets
    → total t.buckets + 1 < 2 ^ 64
    → total (take k (add_sample t x).buckets)
      ≡ total (take k t.buckets) + (if ltb (bucket_for x) k then 1 else 0)
unfolding add_sample bump
total-take-add_sample t x k wide room =
    let j : ℕ = bucket_for x in
    let exact : u64 (get_or t.buckets j 0 + 1) ≡ get_or t.buckets j 0 + 1 =
      omega (arith, get_or-le-total t.buckets j) in
    rw exact (total-take-set t.buckets j k (omega (arith, bucket_for-lt x)))

total-add_sample :
    (t : LatencyTracker) (x : ℕ)
    → length t.buckets ≡ num_buckets
    → total t.buckets + 1 < 2 ^ 64
    → total (add_sample t x).buckets ≡ total t.buckets + 1
total-add_sample t x wide room =
    let new =
      ap total
        (take_all num_buckets (add_sample t x).buckets (omega (arith, length-add_sample t x))) in
    let old = ap total (take_all num_buckets t.buckets (omega arith)) in
    ground (arith, total-take-add_sample t x num_buckets wide room, bucket_for-lt x, new, old)

pub length-add_all :
    (xs : List ℕ) (t : LatencyTracker) → length (add_all t xs).buckets ≡ length t.buckets
unfolding add_all
length-add_all [] t = refl
length-add_all (x ∷ xs) t = length-add_all xs (add_sample t x) ∙ length-add_sample t x

pub total-take-add_all :
    (xs : List ℕ) (t : LatencyTracker) (k : ℕ)
    → length t.buckets ≡ num_buckets
    → total t.buckets + length xs < 2 ^ 64
    → total (take k (add_all t xs).buckets) ≡ total (take k t.buckets) + below k xs
unfolding add_all
total-take-add_all [] t k wide room = omega arith
total-take-add_all (x ∷ xs) t k wide room = omega (
  arith,
  total-take-add_sample t x k wide (omega arith),
  total-take-add_all xs (add_sample t x) k (length-add_sample t x ∙ wide)
      (omega (arith, total-add_sample t x wide (omega arith))),
)

-- No sample, no count.
pub total-take-zero : (n k : ℕ) → total (take k (replicate n 0)) ≡ 0
total-take-zero n zero = refl
total-take-zero zero (suc k) = refl
total-take-zero (suc n) (suc k) = omega (arith, total-take-zero n k)

-- Every sample falls into one of the 64 buckets.
pub below_all : (xs : List ℕ) → below num_buckets xs ≡ length xs
below_all [] = refl
below_all (x ∷ xs) = ground (arith, bucket_for-lt x, below_all xs)

pub below_mono : (j k : ℕ) (xs : List ℕ) → j ≤ k → below j xs ≤ below k xs
below_mono j k [] le = omega arith
below_mono j k (x ∷ xs) le = ground (arith, below_mono j k xs)
