-- ===== src/Latency/Concurrent.antt =====
-- include/latency_tracker.h: any number of calls of `record` at once, interleaved one atomic access
-- at a time (the accesses to one atomic are ordered; the orders of different atomics do not matter
-- here). A weak compare-exchange may fail for no reason.
pub mod Effects
pub mod Quiescence
mod Examples
use market_data_handle.Prelude.{ℕ, ◌+◌, ◌≤◌, ◌<◌, ◌≡◌, some, List, [], ◌∷◌, get_elem?, set, u64}
use market_data_handle.Latency.{LatencyTracker, init, bucket_for, bump}

-- Where a call stands: before `fetch_add` on the bucket, before the load of `min_`, in the loop with
-- its `old_min`, the same for `max_`, before the additions to `sum_` and `count_`, and behind them.
pub data Phase : Type 0 where
  entered : Phase
  loading_min : Phase
  comparing_min : ℕ → Phase
  loading_max : Phase
  comparing_max : ℕ → Phase
  adding : Phase
  counting : Phase
  finished : Phase

-- A call of `record(sample)`.
pub record Recording : Type 0 where
  pub sample : ℕ
  pub phase : Phase

pub data RecordMove (t : LatencyTracker) (x : ℕ) : Phase → LatencyTracker → Phase → Type 0 where
  bump_bucket :
      RecordMove t x entered (record t { buckets = bump t.buckets (bucket_for x) }) loading_min
  load_min : RecordMove t x loading_min t (comparing_min t.min_ns)
  swap_min :
      {old : ℕ}
      → x < old
      → t.min_ns ≡ old
      → RecordMove t x (comparing_min old) (record t { min_ns = x }) loading_max
  retry_min : {old : ℕ} → x < old → RecordMove t x (comparing_min old) t (comparing_min t.min_ns)
  skip_min : {old : ℕ} → old ≤ x → RecordMove t x (comparing_min old) t loading_max
  load_max : RecordMove t x loading_max t (comparing_max t.max_ns)
  swap_max :
      {old : ℕ}
      → old < x
      → t.max_ns ≡ old
      → RecordMove t x (comparing_max old) (record t { max_ns = x }) adding
  retry_max : {old : ℕ} → old < x → RecordMove t x (comparing_max old) t (comparing_max t.max_ns)
  skip_max : {old : ℕ} → x ≤ old → RecordMove t x (comparing_max old) t adding
  add_sum : RecordMove t x adding (record t { sum_ns = u64 (t.sum_ns + x) }) counting
  add_count : RecordMove t x counting (record t { samples = u64 (t.samples + 1) }) finished

-- The tracker, and the calls so far, those that are through included.
pub record System : Type 0 where
  pub tracker : LatencyTracker
  pub calls : List Recording

pub data Step (s : System) : System → Type 0 where
  enter : (x : ℕ) → Step s (record s { calls = record { sample = x; phase = entered } ∷ s.calls })
  go_on :
      (k x : ℕ) {p q : Phase} {t : LatencyTracker}
      → get_elem? s.calls k ≡ some (record { sample = x; phase = p })
      → RecordMove s.tracker x p t q
      → Step s (record { tracker = t; calls = set s.calls k (record { sample = x; phase = q }) })

abbrev pub start_system : System
start_system = record { tracker = init; calls = [] }

pub data Reach : System → Type 0 where
  start : Reach start_system
  later : {s t : System} → Reach s → Step s t → Reach t
