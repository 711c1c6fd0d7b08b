-- ===== src/Latency/Samples.antt =====
-- The tracker after any list of samples: what each of its numbers says of the list.
use mathlib.Core.List.{Perm, Permᴰ}
use mathlib.Core.Logic.{∥∥₁_elim}
use native.Mathlib.Nat.{ℕ_set}
use native.Mathlib.Decide.{ℕ_discrete}
use market_data_handle.Prelude.{
  ℕ, ◌+◌, ◌≤◌, ◌<◌, ◌^◌, ◌≡◌, refl, sym, ap, ◌∙◌, List, [], ◌∷◌, ◌==◌, if◌then◌else◌, length,
  get_or, min, max, arith, u64, u64_max, length-set, get_or-set_self, get_or-set_ne, set-set_comm,
  get_or-replicate,
}
use market_data_handle.Latency.{
  LatencyTracker, init, num_buckets, bucket_for, raw_bucket, bump, add_sample,
}

-- `record` for each sample in turn.
unfoldable pub add_all : LatencyTracker → List ℕ → LatencyTracker
add_all t [] = t
add_all t (x ∷ xs) = add_all (add_sample t x) xs

-- How many samples fall into bucket `i`.
abbrev pub count_in : ℕ → List ℕ → ℕ
count_in i [] = 0
count_in i (x ∷ xs) = (if bucket_for x == i then 1 else 0) + count_in i xs

abbrev pub total : List ℕ → ℕ
total [] = 0
total (x ∷ xs) = x + total xs

-- The least and the greatest of some samples and a number.
abbrev pub least : ℕ → List ℕ → ℕ
least m [] = m
least m (x ∷ xs) = least (min m x) xs

abbrev pub greatest : ℕ → List ℕ → ℕ
greatest m [] = m
greatest m (x ∷ xs) = greatest (max m x) xs

bump_lem :
    (bs : List ℕ) (i j : ℕ)
    → j < length bs
    → get_or (bump bs i) j 0 ≡ (if i == j then u64 (get_or bs j 0 + 1) else get_or bs j 0)
unfolding bump
bump_lem bs i j lt =
    let v : ℕ = u64 (get_or bs i 0 + 1) in
    ground (arith, get_or-set_self bs i v 0, get_or-set_ne bs i j v 0)

bump-bump : (bs : List ℕ) (i j : ℕ) → bump (bump bs i) j ≡ bump (bump bs j) i
unfolding bump
bump-bump bs i j = elim (ℕ_discrete i j) [
  | yes e ↦ rw e
  | no ne ↦ rw (get_or-set_ne bs i j (u64 (get_or bs i 0 + 1)) 0 ne) (
      rw (get_or-set_ne bs j i (u64 (get_or bs j 0 + 1)) 0 (λ e. ne (sym e)))
        (set-set_comm bs i j _ _ ne))
]

pub length-add_sample :
    (t : LatencyTracker) (x : ℕ) → length (add_sample t x).buckets ≡ length t.buckets
unfolding add_sample
length-add_sample t x = length-set t.buckets (bucket_for x) _

raw_bucket-add_sample :
    (t : LatencyTracker) (x i : ℕ)
    → i < length t.buckets
    → raw_bucket (add_sample t x) i
      ≡ (if bucket_for x == i then u64 (raw_bucket t i + 1) else raw_bucket t i)
unfolding raw_bucket add_sample
raw_bucket-add_sample t x i lt = bump_lem t.buckets (bucket_for x) i lt

-- Bucket `i` gains the number of the samples that fall into it.
pub add_all-raw_bucket :
    (xs : List ℕ) (t : LatencyTracker) (i : ℕ)
    → i < length t.buckets
    → raw_bucket t i < 2 ^ 64
    → raw_bucket (add_all t xs) i ≡ u64 (raw_bucket t i + count_in i xs)
unfolding add_all
add_all-raw_bucket [] t i lt small = omega arith
add_all-raw_bucket (x ∷ xs) t i lt small = ground (
  arith,
  raw_bucket-add_sample t x i lt,
  length-add_sample t x,
  add_all-raw_bucket xs (add_sample t x) i,
)

add_sample_totals :
    (t : LatencyTracker) (x : ℕ)
    → ((add_sample t x).min_ns ≡ min t.min_ns x)
      × ((add_sample t x).max_ns ≡ max t.max_ns x)
      × ((add_sample t x).sum_ns ≡ u64 (t.sum_ns + x))
      × ((add_sample t x).samples ≡ u64 (t.samples + 1))
unfolding add_sample
add_sample_totals t x = (ground arith, ground arith, refl, refl)

-- The other four numbers.
pub add_all-totals :
    (xs : List ℕ) (t : LatencyTracker)
    → t.sum_ns < 2 ^ 64
    → t.samples < 2 ^ 64
    → ((add_all t xs).min_ns ≡ least t.min_ns xs)
      × ((add_all t xs).max_ns ≡ greatest t.max_ns xs)
      × ((add_all t xs).sum_ns ≡ u64 (t.sum_ns + total xs))
      × ((add_all t xs).samples ≡ u64 (t.samples + length xs))
unfolding add_all
add_all-totals [] t hs hn = (refl, refl, omega arith, omega arith)
add_all-totals (x ∷ xs) t hs hn =
    let (mn, mx, sm, ct) = add_sample_totals t x in
    let (mns, mxs, sms, cts) = add_all-totals xs (add_sample t x) (omega arith) (omega arith) in
    (mns ∙ ap (λ m. least m xs) mn, mxs ∙ ap (λ m. greatest m xs) mx, omega arith, omega arith)

-- Samples commute.
pub add_sample-add_sample :
    (t : LatencyTracker) (x y : ℕ) → add_sample (add_sample t x) y ≡ add_sample (add_sample t y) x
unfolding add_sample
add_sample-add_sample t x y = ground (arith, bump-bump t.buckets (bucket_for x) (bucket_for y))

init_empty : (i : ℕ) → raw_bucket init i ≡ 0
unfolding raw_bucket
init_empty i = get_or-replicate num_buckets i 0

pub count_in-le : (i : ℕ) (xs : List ℕ) → count_in i xs ≤ length xs
count_in-le i [] = omega arith
count_in-le i (x ∷ xs) = ground (arith, count_in-le i xs)

-- From a fresh tracker: the count, every bucket, the sum, the least and the greatest sample are
-- those of the list, as long as the 64-bit counters do not wrap.
pub add_all_exact :
    (xs : List ℕ) (i : ℕ)
    → length xs < 2 ^ 64
    → total xs < 2 ^ 64
    → i < num_buckets
    → let t = add_all init xs in
      (t.samples ≡ length xs)
      × (t.sum_ns ≡ total xs)
      × (t.min_ns ≡ least u64_max xs)
      × (t.max_ns ≡ greatest 0 xs)
      × (raw_bucket t i ≡ count_in i xs)
add_all_exact xs i few small lt =
    let (mn, mx, sm, ct) = add_all-totals xs init (omega arith) (omega arith) in
    (
      omega arith,
      omega arith,
      mn,
      mx,
      omega (
        arith,
        init_empty i,
        count_in-le i xs,
        add_all-raw_bucket xs init i lt (omega (arith, init_empty i)),
      ),
    )

add_all-permᴰ : (t : LatencyTracker) {xs ys : List ℕ} → Permᴰ xs ys → add_all t xs ≡ add_all t ys
unfolding add_all
add_all-permᴰ t Permᴰ.nil = refl
add_all-permᴰ t (Permᴰ.cons {a = x} {l₂ = ys} e p) =
    add_all-permᴰ (add_sample t x) p ∙ ap (λ z. add_all (add_sample t z) ys) e
add_all-permᴰ t (Permᴰ.swap {a = x} {b = y} {l = l} e f) =
    rw (← e, ← f) (ap (λ u. add_all u l) (add_sample-add_sample t x y))
add_all-permᴰ t (Permᴰ.trans p q) = add_all-permᴰ t p ∙ add_all-permᴰ t q

LatencyTracker-set : IsSet LatencyTracker
LatencyTracker-set = hlevel ℕ_set

-- The order in which samples are recorded leaves no trace.
pub add_all-perm : (t : LatencyTracker) (xs ys : List ℕ) → Perm xs ys → add_all t xs ≡ add_all t ys
add_all-perm t xs ys p = ∥∥₁_elim p (LatencyTracker-set _ _) (add_all-permᴰ t)
