-- ===== src/Latency/Buckets.antt =====
-- Which bucket a latency falls into, and what the bucket's bounds say of it.
use native.Mathlib.Nat.{pow-suc, pow-le-pow_right, one-le-pow}
use native.Mathlib.Decide.{dec_lt}
use market_data_handle.Prelude.{
  ℕ, zero, suc, ◌+◌, ◌^◌, ◌≤◌, ◌<◌, ◌≡◌, refl, arith, IsU64, u64_max, ltb, Bool-cases, inl, inr,
}
use market_data_handle.Latency.{leading_zeros, bucket_for, bucket_upper_ns, num_buckets}

-- The position `b` of the highest one bit of a positive `w`-bit number.
leading_zeros_lem :
    (w n : ℕ)
    → 0 < n
    → n < 2 ^ w
    → (b : ℕ) × (leading_zeros w n + b + 1 ≡ w) × (2 ^ b ≤ n) × (n < 2 ^ suc b)
unfolding leading_zeros
leading_zeros_lem zero n pos lt = absurd (omega arith)
leading_zeros_lem (suc w) n pos lt = elim (Bool-cases (ltb n (2 ^ w))) [
  | inl small ↦
      let (b, e, lo, hi) = leading_zeros_lem w n pos (ground arith) in
      (b, rw small (omega arith), lo, hi)
  | inr large ↦ (w, rw large (omega arith), ground arith, lt)
]

-- Bucket `b` holds the latencies from `2 ^ b` up to `2 ^ (b + 1)`, and there are 64 of them.
pub bucket_for_bounds :
    (ns : ℕ)
    → 0 < ns
    → IsU64 ns
    → (bucket_for ns < num_buckets) × (2 ^ bucket_for ns ≤ ns) × (ns < 2 ^ suc (bucket_for ns))
unfolding bucket_for
bucket_for_bounds ns pos fits =
    let (b, e, lo, hi) = leading_zeros_lem 64 ns pos fits in
    let at : bucket_for ns ≡ b = ground arith in rw at (omega arith, lo, hi)

pub bucket_for-lt : (ns : ℕ) → bucket_for ns < num_buckets
unfolding bucket_for
bucket_for-lt ns = ground arith

pub exponent_le : (a b n : ℕ) → 2 ^ a ≤ n → n < 2 ^ suc b → a ≤ b
exponent_le a b n lo hi = elim (dec_lt b a) [
  | yes above ↦
      let le : 2 ^ suc b ≤ 2 ^ a = pow-le-pow_right (omega arith) above in absurd (omega arith)
  | no not_above ↦ omega arith
]

pow_pos : (b : ℕ) → 0 < 2 ^ b
pow_pos b = one-le-pow b 2 (omega arith)

-- The bounds tell the bucket.
pub bucket_for_unique : (ns b : ℕ) → IsU64 ns → 2 ^ b ≤ ns → ns < 2 ^ suc b → bucket_for ns ≡ b
bucket_for_unique ns b fits lo hi =
    let (_, lo', hi') = bucket_for_bounds ns (omega (arith, pow_pos b)) fits in
    let up = exponent_le b (bucket_for ns) ns lo hi' in
    let down = exponent_le (bucket_for ns) b ns lo' hi in omega arith

-- What `bucket_upper_ns` returns for a sample's own bucket is no more than the sample, up to the
-- last bucket: it is the lower end of the range that the bucket holds.
pub bucket_upper_ns-le : (ns : ℕ) → 0 < ns → ns < 2 ^ 63 → bucket_upper_ns (bucket_for ns) ≤ ns
unfolding bucket_upper_ns
bucket_upper_ns-le ns pos lt =
    let (_, lo, hi) = bucket_for_bounds ns pos (omega arith) in
    let low = exponent_le (bucket_for ns) 62 ns lo lt in ground arith

bucket_upper_ns_cap : (i : ℕ) → i < 63 → 2 ^ i ≤ u64_max
bucket_upper_ns_cap i lt =
    let le : 2 ^ i ≤ 2 ^ 63 = pow-le-pow_right (omega arith) {i = i} {j = 63} (omega arith) in
    omega arith

-- The reported bounds grow with the bucket.
pub bucket_upper_ns_mono : (i j : ℕ) → i ≤ j → bucket_upper_ns i ≤ bucket_upper_ns j
unfolding bucket_upper_ns
bucket_upper_ns_mono i j le =
    ground (arith, pow-le-pow_right {n = 2} (omega arith) {i = i} {j = j} le, bucket_upper_ns_cap i)

last_bucket : bucket_for (bucket_upper_ns 63) ≡ 63
unfolding bucket_for bucket_upper_ns
last_bucket = refl

-- Recording what `bucket_upper_ns` gives for a bucket lands in that bucket.
pub bucket_for-bucket_upper_ns : (i : ℕ) → i < num_buckets → bucket_for (bucket_upper_ns i) ≡ i
unfolding bucket_upper_ns
bucket_for-bucket_upper_ns i lt = elim (dec_lt i 63) [
  | yes low ↦
      let cap = bucket_upper_ns_cap i low in
      let next = pow-suc 2 i in
      let upper : bucket_upper_ns i ≡ 2 ^ i = ground arith in
      rw upper
        (bucket_for_unique (2 ^ i) i (omega arith) (omega arith) (omega (arith, next, pow_pos i)))
  | no last ↦ let at : i ≡ 63 = omega arith in rw at last_bucket
]
