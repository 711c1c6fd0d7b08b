-- ===== src/Latency/Report/Csv.antt =====
-- The exported CSV file, read back.
use mathlib.Core.Path.{subst}
use native.Mathlib.Decide.{ℕ_discrete}
use native.Mathlib.Nat.{pow-le-pow_right}
use market_data_handle.Prelude.{
  ℕ, zero, suc, ◌+◌, ◌-◌, ◌*◌, ◌/◌, ◌%◌, ◌≡◌, ◌≤◌, ◌<◌, refl, ap, ◌∙◌, true, List, [], ◌∷◌, ◌++◌,
  ◌==◌, if◌then◌else◌, ltb, All, All-get_or, All-set, All-replicate, get_or, get_or-set_ne,
  get_or-replicate, replicate, sym, ◌⊎◌, ◌^◌, append_assoc, length, drop, arith, IsU64, Bool-cases,
  inl, inr,
}
use market_data_handle.Text.{is_digit, digits, to_string, read_digits}
use market_data_handle.Text.Decimal.{read_digits-digits}
use market_data_handle.Latency.{
  LatencyTracker, raw_bucket, num_buckets, bucket_lower_ns, bucket_upper_ns, bucket_for, init,
  add_sample,
}
use market_data_handle.Latency.Buckets.{bucket_upper_ns-le}
use market_data_handle.Latency.Report.{csv_header, csv_line, csv_lines, export_csv}

pub data Kind : Type 0 where
  comma newline other : Kind

unfoldable pub kind : ℕ → Kind
kind c = if c == b',' then comma else if c == b'\n' then newline else other

-- The lines of a CSV file of numbers: `n` is read so far of a field, `fields` of the line.
unfoldable pub read_csv : List ℕ → ℕ → List ℕ → List (List ℕ)
unfolding kind
read_csv [] n fields = []
read_csv (c ∷ s) n fields = elim (kind c) [
  | comma ↦ read_csv s 0 (fields ++ n ∷ [])
  | newline ↦ (fields ++ n ∷ []) ∷ read_csv s 0 []
  | other ↦ read_csv s (n * 10 + (c - b'0')) fields
]

-- The table: lower and upper bound and count of each bucket, from `i` on.
abbrev pub csv_table : LatencyTracker → ℕ → ℕ → List (List ℕ)
csv_table t zero i = []
csv_table t (suc n) i =
    (bucket_lower_ns i ∷ bucket_upper_ns i ∷ raw_bucket t i ∷ []) ∷ csv_table t n (suc i)

abbrev IsDigits : List ℕ → Type 0
IsDigits = All (λ c. is_digit c ≡ true)

digits-IsDigits : (fuel n : ℕ) (acc : List ℕ) → IsDigits acc → IsDigits (digits fuel n acc)
unfolding digits
digits-IsDigits zero n acc h = h
digits-IsDigits (suc fuel) n acc h =
    let last : is_digit (b'0' + n % 10) ≡ true = ground arith in
    let rest = digits-IsDigits fuel (n / 10) ((b'0' + n % 10) ∷ acc) (last, h) in
    elim (Bool-cases (ltb n 10)) [
      | inl small ↦ rw (small, digits) (ground arith, h)
      | inr big ↦ rw (big, digits) rest
    ]

read_csv-IsDigits :
    (s rest : List ℕ) (n : ℕ) (fields : List ℕ)
    → IsDigits s
    → read_csv (s ++ rest) n fields ≡ read_csv rest (read_digits s n) fields
unfolding read_csv read_digits
read_csv-IsDigits [] rest n fields h = refl
read_csv-IsDigits (c ∷ s) rest n fields (h, hs) =
    ground (arith, read_csv-IsDigits s rest (n * 10 + (c - b'0')) fields hs)

read_csv-to_string :
    (k : ℕ) (rest fields : List ℕ)
    → IsU64 k
    → read_csv (to_string k ++ rest) 0 fields ≡ read_csv rest k fields
unfolding to_string read_digits
read_csv-to_string k rest fields lt =
    read_csv-IsDigits (to_string k) rest 0 fields (digits-IsDigits 20 k [] tt)
    ∙ ap (λ n. read_csv rest n fields) (read_digits-digits 20 k [] (omega arith))

bucket_lower_ns-IsU64 : (i : ℕ) → i < num_buckets → IsU64 (bucket_lower_ns i)
unfolding bucket_lower_ns
bucket_lower_ns-IsU64 i lt =
    ground (arith, pow-le-pow_right {n = 2} (omega arith) {i = i - 1} {j = 62})

bucket_upper_ns-IsU64 : (i : ℕ) → IsU64 (bucket_upper_ns i)
unfolding bucket_upper_ns
bucket_upper_ns-IsU64 i = ground (arith, pow-le-pow_right {n = 2} (omega arith) {i = i} {j = 62})

read_csv-csv_line :
    (t : LatencyTracker) (i : ℕ) (rest : List ℕ)
    → i < num_buckets
    → All IsU64 t.buckets
    → read_csv (csv_line t i ++ rest) 0 []
      ≡ (bucket_lower_ns i ∷ bucket_upper_ns i ∷ raw_bucket t i ∷ []) ∷ read_csv rest 0 []
unfolding csv_line read_csv raw_bucket
read_csv-csv_line t i rest lt fits =
    let lower = bucket_lower_ns i in
    let upper = bucket_upper_ns i in
    let count = raw_bucket t i in
    let behind_upper = b',' ∷ to_string count ++ b'\n' ∷ rest in
    let behind_lower = b',' ∷ to_string upper ++ behind_upper in
    let parts : csv_line t i ++ rest ≡ to_string lower ++ behind_lower = simp append_assoc in
    ap (λ s. read_csv s 0 []) parts
    ∙ read_csv-to_string lower behind_lower [] (bucket_lower_ns-IsU64 i lt)
    ∙ read_csv-to_string upper behind_upper (lower ∷ []) (bucket_upper_ns-IsU64 i)
    ∙ read_csv-to_string count (b'\n' ∷ rest) (lower ∷ upper ∷ [])
        (All-get_or IsU64 t.buckets i 0 (omega arith) fits)

read_csv-csv_lines :
    (t : LatencyTracker) (n i : ℕ)
    → i + n ≤ num_buckets
    → All IsU64 t.buckets
    → read_csv (csv_lines t n i) 0 [] ≡ csv_table t n i
unfolding csv_lines
read_csv-csv_lines t zero i le fits = unfold read_csv in refl
read_csv-csv_lines t (suc n) i le fits =
    read_csv-csv_line t i (csv_lines t n (suc i)) (omega arith) fits
    ∙ ap (λ rs. (bucket_lower_ns i ∷ bucket_upper_ns i ∷ raw_bucket t i ∷ []) ∷ rs)
        (read_csv-csv_lines t n (suc i) (omega arith) fits)

-- The CSV file, behind its header and read line by line, is the table of the buckets: the lower and
-- the upper bound and the count of each, in order.
pub read_csv-export_csv :
    (t : LatencyTracker)
    → All IsU64 t.buckets
    → read_csv (drop (length csv_header) (export_csv t)) 0 [] ≡ csv_table t num_buckets 0
unfolding export_csv
read_csv-export_csv t fits = read_csv-csv_lines t num_buckets 0 (omega arith) fits

sample_lines :
    (ns n i : ℕ)
    → 0 < ns
    → ns < 2 ^ 63
    → All (λ r. (get_or r 2 0 ≡ 0) ⊎ (get_or r 1 0 ≤ ns)) (csv_table (add_sample init ns) n i)
unfolding raw_bucket add_sample
sample_lines ns zero i pos lt = tt
sample_lines ns (suc n) i pos lt = (
  elim (ℕ_discrete (bucket_for ns) i) [
    | yes e ↦ inr (rw (sym e) (bucket_upper_ns-le ns pos lt))
    | no ne ↦ inl (
        get_or-set_ne (replicate num_buckets 0) (bucket_for ns) i _ 0 ne
        ∙ get_or-replicate num_buckets i 0)
  ],
  sample_lines ns n (suc i) pos lt,
)

-- Of the lines that are written for a tracker with a single sample, from 1 to 2^63 - 1 ns, those
-- that count it have an upper bound that is not above the sample.
pub export_csv_upper :
    (ns : ℕ)
    → 0 < ns
    → ns < 2 ^ 63
    → All
        (λ r. (get_or r 2 0 ≡ 0) ⊎ (get_or r 1 0 ≤ ns))
        (read_csv (drop (length csv_header) (export_csv (add_sample init ns))) 0 [])
export_csv_upper ns pos lt =
    let counted : All IsU64 (add_sample init ns).buckets =
      unfold add_sample in
      All-set IsU64 (replicate num_buckets 0) (bucket_for ns) _ (omega arith)
        (All-replicate IsU64 num_buckets 0 (omega arith)) in
    subst (All (λ r. (get_or r 2 0 ≡ 0) ⊎ (get_or r 1 0 ≤ ns)))
      (sym (read_csv-export_csv (add_sample init ns) counted))
      (sample_lines ns num_buckets 0 pos lt)
