-- ===== src/Latency/Concurrent/Quiescence.antt =====
-- What is in the tracker while calls of `record` are under way, and when all are through.
use mathlib.Core.List.{Perm}
use market_data_handle.Prelude.{
  ℕ, ◌+◌, ◌≡◌, refl, sym, ap, ◌∙◌, Bool, true, some, List, [], ◌∷◌, get_elem?, set, All, All-set,
  u64, ltb, if◌then◌else◌, inl, inr,
}
use market_data_handle.Latency.{LatencyTracker, init, bucket_for, bump, add_sample}
use market_data_handle.Latency.Samples.{add_all, add_all-perm}
use market_data_handle.Latency.Concurrent.{
  Phase, finished, Recording, RecordMove, System, enter, go_on, Reach, start, later,
}
use market_data_handle.Latency.Concurrent.Effects.{
  bucket_done, min_done, max_done, sum_done, count_done, past, recorded, call, Bounded, Effect,
  past-set_same, add_all-past-set, All-Bounded-mono, All-call, buckets-Effect, min-Effect,
  max-Effect, sum-Effect, count-Effect, move_mono, move-Bounded,
}

-- The tracker holds, number by number, the samples of the calls that have done their part on it.
record Counted (t : LatencyTracker) (cs : List Recording) : Type 0 where
  buckets : t.buckets ≡ (recorded bucket_done cs).buckets
  least_one : t.min_ns ≡ (recorded min_done cs).min_ns
  greatest_one : t.max_ns ≡ (recorded max_done cs).max_ns
  sum : t.sum_ns ≡ (recorded sum_done cs).sum_ns
  count : t.samples ≡ (recorded count_done cs).samples
  bounded : All (λ c. Bounded t c.phase) cs

part_kept :
    {A : Type 0} (field : LatencyTracker → A) (part : Phase → Bool) (t u : LatencyTracker)
    (cs : List Recording) (k x : ℕ) (p q : Phase)
    → get_elem? cs k ≡ some (call x p)
    → ((v w : LatencyTracker) → field v ≡ field w → field (add_sample v x) ≡ field (add_sample w x))
    → Effect field part t x p u q
    → field t ≡ field (recorded part cs)
    → field u ≡ field (recorded part (set cs k (call x q)))
part_kept field part t u cs k x p q at cong (inl (same, kept)) h =
    kept ∙ h ∙ ap (λ l. field (add_all init l)) (sym (past-set_same part cs k x p q at same))
part_kept field part t u cs k x p q at cong (inr (before, after, added)) h =
    added
    ∙ cong t (recorded part cs) h
    ∙ ap field (sym (add_all-past-set part cs init k x p q at before after))

move-Counted :
    (t u : LatencyTracker) (cs : List Recording) (k x : ℕ) (p q : Phase)
    → get_elem? cs k ≡ some (call x p)
    → RecordMove t x p u q
    → Counted t cs
    → Counted u (set cs k (call x q))
unfolding add_sample
move-Counted t u cs k x p q at mv c =
    let (falls, rises) = move_mono mv in
    let bound = All-call t cs k x p at c.bounded in
    record {
      buckets =
          part_kept (λ v. v.buckets) bucket_done t u cs k x p q at
            (λ v w e. ap (λ b. bump b (bucket_for x)) e) (buckets-Effect mv) c.buckets;
      least_one =
          part_kept (λ v. v.min_ns) min_done t u cs k x p q at
            (λ v w e. ap (λ (m : ℕ). if ltb x m then x else m) e) (min-Effect mv bound) c.least_one;
      greatest_one =
          part_kept (λ v. v.max_ns) max_done t u cs k x p q at
            (λ v w e. ap (λ (m : ℕ). if ltb m x then x else m) e) (max-Effect mv bound)
            c.greatest_one;
      sum =
          part_kept (λ v. v.sum_ns) sum_done t u cs k x p q at (λ v w e. ap (λ m. u64 (m + x)) e)
            (sum-Effect mv) c.sum;
      count =
          part_kept (λ v. v.samples) count_done t u cs k x p q at (λ v w e. ap (λ m. u64 (m + 1)) e)
            (count-Effect mv) c.count;
      bounded =
          All-set (λ d. Bounded u d.phase) cs k (call x q) (move-Bounded mv)
            (All-Bounded-mono t u cs falls rises c.bounded);
    }

Reach-Counted : {s : System} → Reach s → Counted s.tracker s.calls
unfolding add_all
Reach-Counted start = record {
  buckets = refl;
  least_one = refl;
  greatest_one = refl;
  sum = refl;
  count = refl;
  bounded = tt;
}
Reach-Counted (later {s} reach (enter x)) =
    let c = Reach-Counted reach in
    record {
      buckets = c.buckets;
      least_one = c.least_one;
      greatest_one = c.greatest_one;
      sum = c.sum;
      count = c.count;
      bounded = (tt, c.bounded);
    }
Reach-Counted (later {s} reach (go_on k x {p} {q} {t} at mv)) =
    move-Counted s.tracker t s.calls k x p q at mv (Reach-Counted reach)

abbrev pub samples_of : List Recording → List ℕ
samples_of [] = []
samples_of (c ∷ cs) = c.sample ∷ samples_of cs

past_finished :
    (part : Phase → Bool) (cs : List Recording)
    → part finished ≡ true
    → All (λ c. c.phase ≡ finished) cs
    → past part cs ≡ samples_of cs
past_finished part [] done all = refl
past_finished part (c ∷ cs) done (here, all) = rw (here, done, past_finished part cs done all) refl

-- When any number of calls of `record`, interleaved in any order, are all through, the tracker is
-- the one that a single thread makes of the same samples, in whatever order: no bucket, no count and
-- no part of the sum is lost, and the least and the greatest sample are right.
pub quiescent-add_all :
    (s : System) (xs : List ℕ)
    → Reach s
    → All (λ c. c.phase ≡ finished) s.calls
    → Perm (samples_of s.calls) xs
    → s.tracker ≡ add_all init xs
quiescent-add_all s xs reach all order =
    let c = Reach-Counted reach in
    let end : (part : Phase → Bool)
        → part finished ≡ true
        → recorded part s.calls ≡ add_all init xs =
      λ part done.
        ap (add_all init) (past_finished part s.calls done all)
        ∙ add_all-perm init (samples_of s.calls) xs order in
    let b = c.buckets ∙ ap (λ (v : LatencyTracker). v.buckets) (end bucket_done refl) in
    let mn = c.least_one ∙ ap (λ (v : LatencyTracker). v.min_ns) (end min_done refl) in
    let mx = c.greatest_one ∙ ap (λ (v : LatencyTracker). v.max_ns) (end max_done refl) in
    let sm = c.sum ∙ ap (λ (v : LatencyTracker). v.sum_ns) (end sum_done refl) in
    let ct = c.count ∙ ap (λ (v : LatencyTracker). v.samples) (end count_done refl) in
    λ i. record { buckets = b i; min_ns = mn i; max_ns = mx i; sum_ns = sm i; samples = ct i }
