-- ===== src/Latency/Report/Bars.antt =====
-- The bars of the histogram against the counts that they stand for.
use native.Mathlib.Nat.{div-le_of_le-mul, mul-div_cancel_left, mul-le-mul_right}
use market_data_handle.Prelude.{
  ℕ, suc, ◌*◌, ◌/◌, ◌≡◌, ◌≤◌, ◌<◌, refl, ap, ◌∙◌, true, false, List, [], ◌∷◌, ◌==◌, map, member,
  if◌then◌else◌, ltb, All, length, length-replicate, arith, IsU64, u64, Bool-cases, inl, inr, ◌⊎◌,
}
use market_data_handle.Latency.{LatencyTracker}
use market_data_handle.Latency.Report.{Row, row, rows, peak_loop, histogram_rows}

-- The buckets with samples, in their order.
abbrev pub filled : List ℕ → List ℕ
filled [] = []
filled (c ∷ cs) = let more = filled cs in if c == 0 then more else c ∷ more

peak_loop_bounds :
    (cs : List ℕ) (peak : ℕ) → (peak ≤ peak_loop cs peak) × All (λ c. c ≤ peak_loop cs peak) cs
unfolding peak_loop
peak_loop_bounds [] peak = (omega arith, tt)
peak_loop_bounds (c ∷ cs) peak =
    let (start, others) = peak_loop_bounds cs (if ltb peak c then c else peak) in
    (ground arith, (ground arith, others))

peak_loop-member :
    (cs : List ℕ) (peak : ℕ) → (peak_loop cs peak ≡ peak) ⊎ (member (peak_loop cs peak) cs ≡ true)
unfolding peak_loop
peak_loop-member [] peak = inl refl
peak_loop-member (c ∷ cs) peak =
    ground (arith, peak_loop-member cs (if ltb peak c then c else peak))

-- A bar is no longer than the widest, and one of the peak's count is as long as that.
row_bar :
    (width peak i c : ℕ)
    → 0 < c
    → c ≤ peak
    → IsU64 (peak * width)
    → (length (row width peak i c).bar ≤ width)
      × (c ≡ peak → length (row width peak i c).bar ≡ width)
unfolding row
row_bar width peak i c pos le fits =
    let scaled : c * width ≤ peak * width = mul-le-mul_right width le in
    let exact : u64 (c * width) ≡ c * width = omega (arith, scaled, fits) in
    let long : length (row width peak i c).bar ≡ c * width / peak =
      length-replicate (u64 (c * width) / peak) b'=' ∙ ap (λ n. n / peak) exact in
    let within : c * width / peak ≤ width = div-le_of_le-mul peak scaled in
    (
      omega (arith, long, within),
      λ same.
          long
          ∙ ap (λ n. n * width / peak) same
          ∙ mul-div_cancel_left width (omega (arith, pos, le)),
    )

rows-count :
    (width peak i : ℕ) (cs : List ℕ) → map (λ (r : Row). r.count) (rows width peak i cs) ≡ filled cs
unfolding rows row
rows-count width peak i [] = refl
rows-count width peak i (c ∷ cs) = ground (arith, rows-count width peak (suc i) cs)

rows_bars :
    (width peak i : ℕ) (cs : List ℕ)
    → All (λ c. c ≤ peak) cs
    → IsU64 (peak * width)
    → All (λ (r : Row). length r.bar ≤ width) (rows width peak i cs)
unfolding rows
rows_bars width peak i [] le fits = tt
rows_bars width peak i (c ∷ cs) (le, less) fits =
    let rest = rows_bars width peak (suc i) cs less fits in
    elim (Bool-cases (c == 0)) [
      | inl e ↦ rw (e, rows) rest
      | inr e ↦ rw (e, rows) ((row_bar width peak i c (ground (arith, e)) le fits).0, rest)
    ]

rows_full :
    (width peak i : ℕ) (cs : List ℕ)
    → 0 < peak
    → All (λ c. c ≤ peak) cs
    → member peak cs ≡ true
    → IsU64 (peak * width)
    → member width (map (λ (r : Row). length r.bar) (rows width peak i cs)) ≡ true
unfolding rows
rows_full width peak i [] pos le here fits = absurd (ground (arith, here))
rows_full width peak i (c ∷ cs) pos (le, less) here fits =
    let more : List Row = rows width peak (suc i) cs in
    elim (Bool-cases (peak == c)) [
      | inl e ↦
          let some_there : (c == 0) ≡ false = ground (arith, e, pos) in
          let full =
            (row_bar width peak i c (ground (arith, e, pos)) le fits).1 (ground (arith, e)) in
          rw (some_there, rows) (ground (arith, full))
      | inr e ↦
          let later = rows_full width peak (suc i) cs pos less (ground (arith, here, e)) fits in
          elim (Bool-cases (c == 0)) [
            | inl f ↦ rw (f, rows) later
            | inr f ↦ rw (f, rows) (ground (arith, later))
          ]
    ]

filled-nil : (cs : List ℕ) (peak : ℕ) → peak ≡ 0 → All (λ c. c ≤ peak) cs → filled cs ≡ []
filled-nil [] peak zeros le = refl
filled-nil (c ∷ cs) peak zeros (le, less) = ground (arith, filled-nil cs peak zeros less)

-- The histogram has a line for each bucket that is not empty, with its count, in the order of the
-- buckets. If the greatest count times the width is below 2^64, no bar is longer than the width, and
-- if there are samples, one is as long.
pub histogram_rows_bars :
    (t : LatencyTracker) (width : ℕ)
    → IsU64 (peak_loop t.buckets 0 * width)
    → (map (λ (r : Row). r.count) (histogram_rows t width) ≡ filled t.buckets)
      × All (λ (r : Row). length r.bar ≤ width) (histogram_rows t width)
      × ((filled t.buckets ≡ [])
          ⊎ (member width (map (λ (r : Row). length r.bar) (histogram_rows t width)) ≡ true))
unfolding histogram_rows
histogram_rows_bars t width fits =
    let peak = peak_loop t.buckets 0 in
    let (any, le) = peak_loop_bounds t.buckets 0 in
    (
      rows-count width peak 0 t.buckets,
      rows_bars width peak 0 t.buckets le fits,
      elim (peak_loop-member t.buckets 0) [
        | inl zeros ↦ inl (filled-nil t.buckets peak zeros le)
        | inr here ↦ elim (Bool-cases (peak == 0)) [
          | inl zeros ↦ inl (filled-nil t.buckets peak (ground (arith, zeros)) le)
          | inr some_there ↦
              inr (rows_full width peak 0 t.buckets (ground (arith, some_there)) le here fits)
        ]
      ],
    )
