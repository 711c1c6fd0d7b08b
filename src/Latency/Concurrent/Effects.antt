-- ===== src/Latency/Concurrent/Effects.antt =====
-- What each move of a call of `record` does to each number of the tracker.
use mathlib.Core.Path.{subst}
use market_data_handle.Prelude.{
  ℕ, zero, suc, ◌≤◌, ◌≡◌, refl, ap, ◌∙◌, Bool, true, false, some, List, [], ◌∷◌, get_elem?, set,
  All, if◌then◌else◌, arith, Bool-cases, ◌⊎◌, inl, inr,
}
use market_data_handle.Latency.{LatencyTracker, init, add_sample}
use market_data_handle.Latency.Samples.{add_all, add_sample-add_sample}
use market_data_handle.Latency.Concurrent.{
  Phase, entered, loading_min, comparing_min, loading_max, comparing_max, adding, counting,
  finished, Recording, RecordMove, bump_bucket, load_min, swap_min, retry_min, skip_min, load_max,
  swap_max, retry_max, skip_max, add_sum, add_count,
}

-- Whether a call has done its part on each atomic.
abbrev pub bucket_done : Phase → Bool
bucket_done entered = false
bucket_done loading_min = true
bucket_done (comparing_min old) = true
bucket_done loading_max = true
bucket_done (comparing_max old) = true
bucket_done adding = true
bucket_done counting = true
bucket_done finished = true

abbrev pub min_done : Phase → Bool
min_done entered = false
min_done loading_min = false
min_done (comparing_min old) = false
min_done loading_max = true
min_done (comparing_max old) = true
min_done adding = true
min_done counting = true
min_done finished = true

abbrev pub max_done : Phase → Bool
max_done entered = false
max_done loading_min = false
max_done (comparing_min old) = false
max_done loading_max = false
max_done (comparing_max old) = false
max_done adding = true
max_done counting = true
max_done finished = true

abbrev pub sum_done : Phase → Bool
sum_done entered = false
sum_done loading_min = false
sum_done (comparing_min old) = false
sum_done loading_max = false
sum_done (comparing_max old) = false
sum_done adding = false
sum_done counting = true
sum_done finished = true

abbrev pub count_done : Phase → Bool
count_done entered = false
count_done loading_min = false
count_done (comparing_min old) = false
count_done loading_max = false
count_done (comparing_max old) = false
count_done adding = false
count_done counting = false
count_done finished = true

-- The samples of the calls that have done a part.
abbrev pub past : (Phase → Bool) → List Recording → List ℕ
past part [] = []
past part (c ∷ cs) = let rest = past part cs in if part c.phase then c.sample ∷ rest else rest

abbrev pub recorded : (Phase → Bool) → List Recording → LatencyTracker
recorded part cs = add_all init (past part cs)

abbrev pub call : ℕ → Phase → Recording
call x p = record { sample = x; phase = p }

add_all-add_sample :
    (xs : List ℕ) (t : LatencyTracker) (x : ℕ)
    → add_all (add_sample t x) xs ≡ add_sample (add_all t xs) x
unfolding add_all
add_all-add_sample [] t x = refl
add_all-add_sample (y ∷ xs) t x =
    ap (λ u. add_all u xs) (add_sample-add_sample t x y) ∙ add_all-add_sample xs (add_sample t y) x

pub past-set_same :
    (part : Phase → Bool) (cs : List Recording) (k x : ℕ) (p q : Phase)
    → get_elem? cs k ≡ some (call x p)
    → part q ≡ part p
    → past part (set cs k (call x q)) ≡ past part cs
past-set_same part [] k x p q at same = refl
past-set_same part (c ∷ cs) zero x p q at same =
    let here : c ≡ call x p = cc in rw (here, same) refl
past-set_same part (c ∷ cs) (suc k) x p q at same = rw (past-set_same part cs k x p q at same) refl

pub add_all-past-set :
    (part : Phase → Bool) (cs : List Recording) (t : LatencyTracker) (k x : ℕ) (p q : Phase)
    → get_elem? cs k ≡ some (call x p)
    → part p ≡ false
    → part q ≡ true
    → add_all t (past part (set cs k (call x q))) ≡ add_sample (add_all t (past part cs)) x
unfolding add_all
add_all-past-set part [] t k x p q at before after = absurd (cc)
add_all-past-set part (c ∷ cs) t zero x p q at before after =
    let here : c ≡ call x p = cc in rw (here, before, after) (add_all-add_sample (past part cs) t x)
add_all-past-set part (c ∷ cs) t (suc k) x p q at before after = elim (Bool-cases (part c.phase)) [
  | inl e ↦ rw e (add_all-past-set part cs (add_sample t c.sample) k x p q at before after)
  | inr e ↦ rw e (add_all-past-set part cs t k x p q at before after)
]

-- What the tracker has passed on to a call is still a bound.
abbrev pub Bounded : LatencyTracker → Phase → Type 0
Bounded t entered = Unit
Bounded t loading_min = Unit
Bounded t (comparing_min old) = t.min_ns ≤ old
Bounded t loading_max = Unit
Bounded t (comparing_max old) = old ≤ t.max_ns
Bounded t adding = Unit
Bounded t counting = Unit
Bounded t finished = Unit

-- A move does its call's part on a number of the tracker, or leaves part and number alone.
abbrev pub Effect :
    {A : Type 0}
    → (LatencyTracker → A)
    → (Phase → Bool)
    → LatencyTracker
    → ℕ
    → Phase
    → LatencyTracker
    → Phase
    → Type 0
Effect field part t x p u q =
    ((part q ≡ part p) × (field u ≡ field t))
    ⊎ ((part p ≡ false) × (part q ≡ true) × (field u ≡ field (add_sample t x)))

module _ {t : LatencyTracker} {x : ℕ} where
  pub buckets-Effect :
      {u : LatencyTracker} {p q : Phase}
      → RecordMove t x p u q
      → Effect (λ v. v.buckets) bucket_done t x p u q
  unfolding add_sample
  buckets-Effect bump_bucket = inr (refl, refl, refl)
  buckets-Effect mv = inl (refl, refl)

  pub min-Effect :
      {u : LatencyTracker} {p q : Phase}
      → RecordMove t x p u q
      → Bounded t p
      → Effect (λ v. v.min_ns) min_done t x p u q
  unfolding add_sample
  min-Effect (swap_min lt now) low = inr (refl, refl, ground arith)
  min-Effect (skip_min le) low = inr (refl, refl, ground arith)
  min-Effect mv low = inl (refl, refl)

  pub max-Effect :
      {u : LatencyTracker} {p q : Phase}
      → RecordMove t x p u q
      → Bounded t p
      → Effect (λ v. v.max_ns) max_done t x p u q
  unfolding add_sample
  max-Effect (swap_max lt now) high = inr (refl, refl, ground arith)
  max-Effect (skip_max le) high = inr (refl, refl, ground arith)
  max-Effect mv high = inl (refl, refl)

  pub sum-Effect :
      {u : LatencyTracker} {p q : Phase}
      → RecordMove t x p u q
      → Effect (λ v. v.sum_ns) sum_done t x p u q
  unfolding add_sample
  sum-Effect add_sum = inr (refl, refl, refl)
  sum-Effect mv = inl (refl, refl)

  pub count-Effect :
      {u : LatencyTracker} {p q : Phase}
      → RecordMove t x p u q
      → Effect (λ v. v.samples) count_done t x p u q
  unfolding add_sample
  count-Effect add_count = inr (refl, refl, refl)
  count-Effect mv = inl (refl, refl)

  -- The least sample only falls, the greatest only rises.
  pub move_mono :
      {u : LatencyTracker} {p q : Phase}
      → RecordMove t x p u q
      → (u.min_ns ≤ t.min_ns) × (t.max_ns ≤ u.max_ns)
  move_mono (swap_min lt now) = (omega arith, omega arith)
  move_mono (swap_max lt now) = (omega arith, omega arith)
  move_mono mv = (omega arith, omega arith)

  pub move-Bounded : {u : LatencyTracker} {p q : Phase} → RecordMove t x p u q → Bounded u q
  move-Bounded load_min = omega arith
  move-Bounded (retry_min lt) = omega arith
  move-Bounded load_max = omega arith
  move-Bounded (retry_max lt) = omega arith
  move-Bounded mv = tt

Bounded-mono :
    (t u : LatencyTracker) (p : Phase)
    → u.min_ns ≤ t.min_ns
    → t.max_ns ≤ u.max_ns
    → Bounded t p
    → Bounded u p
Bounded-mono t u (comparing_min old) falls rises h = omega arith
Bounded-mono t u (comparing_max old) falls rises h = omega arith
Bounded-mono t u entered falls rises h = tt
Bounded-mono t u loading_min falls rises h = tt
Bounded-mono t u loading_max falls rises h = tt
Bounded-mono t u adding falls rises h = tt
Bounded-mono t u counting falls rises h = tt
Bounded-mono t u finished falls rises h = tt

pub All-Bounded-mono :
    (t u : LatencyTracker) (cs : List Recording)
    → u.min_ns ≤ t.min_ns
    → t.max_ns ≤ u.max_ns
    → All (λ c. Bounded t c.phase) cs
    → All (λ c. Bounded u c.phase) cs
All-Bounded-mono t u [] falls rises hs = tt
All-Bounded-mono t u (c ∷ cs) falls rises (h, hs) =
    (Bounded-mono t u c.phase falls rises h, All-Bounded-mono t u cs falls rises hs)

pub All-call :
    (t : LatencyTracker) (cs : List Recording) (k x : ℕ) (p : Phase)
    → get_elem? cs k ≡ some (call x p)
    → All (λ c. Bounded t c.phase) cs
    → Bounded t p
All-call t [] k x p at hs = absurd (cc)
All-call t (c ∷ cs) zero x p at hs =
    let here : c ≡ call x p = cc in subst (λ d. Bounded t d.phase) here hs.0
All-call t (c ∷ cs) (suc k) x p at hs = All-call t cs k x p at hs.1
