-- ===== src/Latency/Percentiles.antt =====
-- The percentiles of `get_stats`: one pass with four flags and an early `break`, against a separate
-- search for each of them.
use native.Mathlib.Decide.{dec_lt}
use market_data_handle.Prelude.{
  ℕ, suc, ◌+◌, ◌≤◌, ◌<◌, ◌^◌, ◌≡◌, refl, ap, ◌∙◌, false, not, ◌&&◌, List, [], ◌∷◌, leb,
  if◌then◌else◌, length, take, arith, u64, Bool-cases, inl, inr,
}
use market_data_handle.Latency.{Mark, Marks, Targets, mark, bucket_upper_ns, percentile_loop}
use market_data_handle.Latency.Buckets.{bucket_upper_ns_mono}
use market_data_handle.Latency.Samples.{total}

-- The upper bound of the first bucket at which the running count reaches the target, or `d`.
unfoldable pub first_reaching : ℕ → ℕ → ℕ → List ℕ → ℕ → ℕ
first_reaching d t i [] c = d
first_reaching d t i (b ∷ bs) c =
    let rest = first_reaching d t (i + 1) bs (u64 (c + b)) in
    if leb t (u64 (c + b)) then bucket_upper_ns i else rest

-- What one mark ends as, when the loop is entered with it.
abbrev pub ends_as : Mark → ℕ → ℕ → List ℕ → ℕ → ℕ
ends_as m t i bs c = if m.done then m.value else first_reaching m.value t i bs c

abbrev pub IsOrdered : Targets → Type 0
IsOrdered t = (t.t50 ≤ t.t95) × (t.t95 ≤ t.t99) × (t.t99 ≤ t.t999)

-- A mark after one bucket ends as before it, and as it stands once its target is reached.
ends_as-mark :
    (m : Mark) (t i b : ℕ) (bs : List ℕ) (c : ℕ)
    → ends_as (mark m t (u64 (c + b)) (bucket_upper_ns i)) t (i + 1) bs (u64 (c + b))
      ≡ ends_as m t i (b ∷ bs) c
unfolding first_reaching mark
ends_as-mark m t i b bs c = ground arith

mark_reached :
    (m : Mark) (t i b : ℕ) (bs : List ℕ) (c : ℕ)
    → t ≤ u64 (c + b)
    → (mark m t (u64 (c + b)) (bucket_upper_ns i)).value ≡ ends_as m t i (b ∷ bs) c
unfolding first_reaching mark
mark_reached m t i b bs c le = ground arith

not_marked :
    (m : Mark) (t c upper : ℕ) → m.done ≡ false → leb t c ≡ false → (mark m t c upper).done ≡ false
unfolding mark
not_marked m t c upper fresh more = ground arith

abbrev marked : Targets → ℕ → ℕ → Marks → Marks
marked t i c m = record {
  p50 = mark m.p50 t.t50 c (bucket_upper_ns i);
  p95 = mark m.p95 t.t95 c (bucket_upper_ns i);
  p99 = mark m.p99 t.t99 c (bucket_upper_ns i);
  p999 = mark m.p999 t.t999 c (bucket_upper_ns i);
}

pub percentile_loop_ends :
    (t : Targets) (i : ℕ) (bs : List ℕ) (c : ℕ) (m : Marks)
    → IsOrdered t
    → m.p999.done ≡ false
    → let r = percentile_loop t i bs c m in
      (r.p50.value ≡ ends_as m.p50 t.t50 i bs c)
      × (r.p95.value ≡ ends_as m.p95 t.t95 i bs c)
      × (r.p99.value ≡ ends_as m.p99 t.t99 i bs c)
      × (r.p999.value ≡ ends_as m.p999 t.t999 i bs c)
unfolding percentile_loop first_reaching
percentile_loop_ends t i [] c m ord fresh = ground arith
percentile_loop_ends t i (b ∷ bs) c m ord fresh = elim (Bool-cases (leb t.t999 (u64 (c + b)))) [
  | inl stop ↦
      let le : t.t999 ≤ u64 (c + b) = ground arith in
      rw (fresh, stop)
        (
          mark_reached m.p50 t.t50 i b bs c (omega arith),
          mark_reached m.p95 t.t95 i b bs c (omega arith),
          mark_reached m.p99 t.t99 i b bs c (omega arith),
          refl,
        )
  | inr more ↦
      let m' = marked t i (u64 (c + b)) m in
      let same : percentile_loop t i (b ∷ bs) c m ≡ percentile_loop t (i + 1) bs (u64 (c + b)) m' =
        ap
          (λ d.
            if not d && leb t.t999 (u64 (c + b))
            then m'
            else percentile_loop t (i + 1) bs (u64 (c + b)) m')
          fresh
        ∙ ap (λ d. if d then m' else percentile_loop t (i + 1) bs (u64 (c + b)) m') more in
      let (q50, q95, q99, q999) =
        percentile_loop_ends t (i + 1) bs (u64 (c + b)) m' ord
          (not_marked m.p999 _ _ _ fresh more) in
      (
        ap (λ r. r.p50.value) same ∙ q50 ∙ ends_as-mark m.p50 t.t50 i b bs c,
        ap (λ r. r.p95.value) same ∙ q95 ∙ ends_as-mark m.p95 t.t95 i b bs c,
        ap (λ r. r.p99.value) same ∙ q99 ∙ ends_as-mark m.p99 t.t99 i b bs c,
        ap (λ r. r.p999.value) same ∙ q999 ∙ ends_as-mark m.p999 t.t999 i b bs c,
      )
]

-- A target above the count so far that the buckets reach is found at one bucket: the counts up to
-- it reach the target, those before it do not.
pub first_reaching_lem :
    (d t i : ℕ) (bs : List ℕ) (c : ℕ)
    → c < t
    → t ≤ c + total bs
    → c + total bs < 2 ^ 64
    → (k : ℕ) × (first_reaching d t i bs c ≡ bucket_upper_ns (i + k))
      × (k < length bs)
      × (c + total (take k bs) < t)
      × (t ≤ c + total (take (suc k) bs))
unfolding first_reaching
first_reaching_lem d t i [] c lt le room = absurd (omega arith)
first_reaching_lem d t i (b ∷ bs) c lt le room =
    let exact : u64 (c + b) ≡ c + b = omega arith in
    elim (dec_lt (c + b) t) [
      | yes more ↦
          let (k, e, small, lo, hi) =
            first_reaching_lem d t (i + 1) bs (c + b) more (omega arith) (omega arith) in
          let at : i + 1 + k ≡ i + suc k = omega arith in
          (suc k, rw exact (ground (arith, e, at)), omega arith, omega arith, omega arith)
      | no now ↦ (0, rw exact (ground arith), omega arith, omega arith, omega arith)
    ]

-- A larger target is reached no earlier.
pub first_reaching_mono :
    (d t t' i : ℕ) (bs : List ℕ) (c : ℕ)
    → t ≤ t'
    → t' ≤ c + total bs
    → c + total bs < 2 ^ 64
    → first_reaching d t i bs c ≤ first_reaching d t' i bs c
unfolding first_reaching
first_reaching_mono d t t' i [] c le reach room = omega arith
first_reaching_mono d t t' i (b ∷ bs) c le reach room =
    let exact : u64 (c + b) ≡ c + b = omega arith in
    rw exact (elim (dec_lt (c + b) t') [
      | yes more ↦
          let (k, e, _, _, _) =
            first_reaching_lem d t' (i + 1) bs (c + b) more (omega arith) (omega arith) in
          ground (
            arith,
            e,
            bucket_upper_ns_mono i (i + 1 + k) (omega arith),
            first_reaching_mono d t t' (i + 1) bs (c + b) le,
          )
      | no now ↦ ground arith
    ])
