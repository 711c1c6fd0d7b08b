-- ===== src/Client/Display/Examples.antt =====
-- The dashboard at concrete numbers, and at a fresh cache with an insertion sort.
use market_data_handle.Prelude.{
  ℕ, suc, ◌≤◌, ◌<◌, ◌≡◌, ◌⊎◌, refl, ◌∙◌, inl, inr, some, false, List, [], ◌∷◌, leb, ltb,
  if◌then◌else◌, length, All, Bool-cases, set, length-set, All-set, arith,
}
use market_data_handle.Cache.{SymbolCache, init, no_data}
use market_data_handle.Cache.Updates.{IsReady, IsQuiet}
use market_data_handle.Cache.History.{init-IsReady}
use market_data_handle.Text.{codes, to_string, digits}
use market_data_handle.Client.Display.{Entry, ranked, fmt_large}
use market_data_handle.Client.Display.Lifetime.{
  Visualizer, rendering, start, store_stop, loop_step, joining, Reach, made, later, starts, stops,
  loops,
}
use market_data_handle.Client.Display.Lifetime.Ends.{Behaves, Reach-Behaves}
use market_data_handle.Client.Display.Commas.{Grouped, fmt_large-Grouped}
use market_data_handle.Client.Display.Screen.{Figures, Line, name_of, shown_table}
use market_data_handle.Client.Display.Screen.Table.{updated, IsFilled, shown_table-IsFilled}
use market_data_handle.Client.Display.Ranking.{In, IsRanked, Sorts, entry, ranked-top}

fmt_large_run :
    fmt_large 1234567 ≡ b'1' ∷ b',' ∷ b'2' ∷ b'3' ∷ b'4' ∷ b',' ∷ b'5' ∷ b'6' ∷ b'7' ∷ []
unfolding fmt_large to_string digits
fmt_large_run = refl

fmt_large-Grouped_example : Grouped (to_string 1234567) (fmt_large 1234567)
fmt_large-Grouped_example = fmt_large-Grouped 1234567

abbrev put : Entry → List Entry → List Entry
put e [] = e ∷ []
put e (x ∷ xs) = let rest = put e xs in if leb x.count e.count then e ∷ x ∷ xs else x ∷ rest

abbrev insertion_sort : List Entry → List Entry
insertion_sort [] = []
insertion_sort (x ∷ xs) = put x (insertion_sort xs)

put-All : (P : Entry → Type 0) (e : Entry) (xs : List Entry) → P e → All P xs → All P (put e xs)
put-All P e [] h hs = (h, tt)
put-All P e (x ∷ xs) h hs = elim (Bool-cases (leb x.count e.count)) [
  | inl le ↦ rw le (h, hs)
  | inr gt ↦ rw gt (hs.0, put-All P e xs h hs.1)
]

All-le_mono :
    (m n : ℕ) (xs : List Entry) → m ≤ n → All (λ f. f.count ≤ m) xs → All (λ f. f.count ≤ n) xs
All-le_mono m n [] le hs = tt
All-le_mono m n (x ∷ xs) le hs = (omega arith, All-le_mono m n xs le hs.1)

put-IsRanked : (e : Entry) (xs : List Entry) → IsRanked xs → IsRanked (put e xs)
put-IsRanked e [] order = (tt, tt)
put-IsRanked e (x ∷ xs) (most, order) = elim (Bool-cases (leb x.count e.count)) [
  | inl le ↦
      let low : x.count ≤ e.count = ground arith in
      rw le ((low, All-le_mono x.count e.count xs low most), (most, order))
  | inr gt ↦
      let high : e.count ≤ x.count = ground arith in
      rw gt (put-All (λ f. f.count ≤ x.count) e xs high most, put-IsRanked e xs order)
]

insertion_sort-IsRanked : (es : List Entry) → IsRanked (insertion_sort es)
insertion_sort-IsRanked [] = tt
insertion_sort-IsRanked (x ∷ xs) = put-IsRanked x (insertion_sort xs) (insertion_sort-IsRanked xs)

In-put : (e f : Entry) (xs : List Entry) → In f (e ∷ xs) → In f (put e xs)
In-put e f [] h = h
In-put e f (x ∷ xs) h = elim (Bool-cases (leb x.count e.count)) [
  | inl le ↦ rw le h
  | inr gt ↦ rw gt (elim h [
    | inl same ↦ inr (In-put e f xs (inl same))
    | inr (inl same) ↦ inl same
    | inr (inr rest) ↦ inr (In-put e f xs (inr rest))
  ])
]

In-put_back : (e f : Entry) (xs : List Entry) → In f (put e xs) → In f (e ∷ xs)
In-put_back e f [] h = h
In-put_back e f (x ∷ xs) h = elim (Bool-cases (leb x.count e.count)) [
  | inl le ↦ rw le at h
  | inr gt ↦ elim (rw gt at h) [
    | inl same ↦ inr (inl same)
    | inr rest ↦ elim (In-put_back e f xs rest) [
      | inl same ↦ inl same
      | inr there ↦ inr (inr there)
    ]
  ]
]

In-insertion_sort : (e : Entry) (es : List Entry) → In e es → In e (insertion_sort es)
In-insertion_sort e [] h = h
In-insertion_sort e (x ∷ xs) (inl same) = In-put x e (insertion_sort xs) (inl same)
In-insertion_sort e (x ∷ xs) (inr rest) =
    In-put x e (insertion_sort xs) (inr (In-insertion_sort e xs rest))

In-insertion_sort_back : (e : Entry) (es : List Entry) → In e (insertion_sort es) → In e es
In-insertion_sort_back e [] h = h
In-insertion_sort_back e (x ∷ xs) h = elim (In-put_back x e (insertion_sort xs) h) [
  | inl same ↦ inl same
  | inr rest ↦ inr (In-insertion_sort_back e xs rest)
]

length-put : (e : Entry) (xs : List Entry) → length (put e xs) ≡ suc (length xs)
length-put e [] = refl
length-put e (x ∷ xs) = ground (arith, length-put e xs)

length-insertion_sort : (es : List Entry) → length (insertion_sort es) ≡ length es
length-insertion_sort [] = refl
length-insertion_sort (x ∷ xs) =
    omega (arith, length-put x (insertion_sort xs), length-insertion_sort xs)

insertion_sort-Sorts : Sorts insertion_sort
insertion_sort-Sorts = record {
  ordered = insertion_sort-IsRanked;
  kept = λ es e. In-insertion_sort e es;
  none_new = λ es e. In-insertion_sort_back e es;
  same_length = length-insertion_sort;
}

-- Symbol 1 had five updates.
abbrev cache_1 : SymbolCache
cache_1 = set init 1 (record { version = 10; fields = record no_data { update_count = 5 } })

cache_1-IsReady : IsReady cache_1
cache_1-IsReady = (
  length-set init 1 (record { version = 10; fields = record no_data { update_count = 5 } })
      ∙ init-IsReady.0,
  All-set IsQuiet init 1 (record { version = 10; fields = record no_data { update_count = 5 } })
      refl init-IsReady.1,
)

ranked-top_example :
    (es : List Entry) × (ranked insertion_sort 1 cache_1 3 ≡ some es)
    × (length es ≡ 3)
    × IsRanked es
    × All (λ (e : Entry). (e.id < 3) × (e ≡ entry cache_1 e.id)) es
    × (In (entry cache_1 1) es ⊎ All (λ (e : Entry). (entry cache_1 1).count ≤ e.count) es)
ranked-top_example =
    ranked-top insertion_sort 0 cache_1 3 1 insertion_sort-Sorts cache_1-IsReady (omega arith)
      (omega arith)

-- Numbers in place of doubles; every price is printed as one.
abbrev plain_figures : Figures ℕ
plain_figures = record {
  of_bits = λ n. n;
  zero = 0;
  hundred = 100;
  gt = λ a b. ltb b a;
  ge = λ a b. leb b a;
  sub = λ a b. a;
  mul = λ a b. a;
  div = λ a b. a;
  truncated = λ a. a;
  fixed2 = λ a. codes "1.00";
  to_text = to_string;
}

abbrev names : List (List ℕ)
names = codes "RELIANCE" ∷ codes "TCS" ∷ codes "HINDUNILVR LIMITED" ∷ []

name_of_run : name_of names 2 ≡ codes "HINDUNILVR L"
unfolding name_of
name_of_run = refl

shown_table-IsFilled_example :
    (es : List Entry) × (ls : List Line) × (ranked insertion_sort 1 cache_1 3 ≡ some es)
    × (shown_table plain_figures insertion_sort 1 names cache_1 ≡ some ls)
    × (length ls ≡ length (updated es))
    × All IsFilled ls
shown_table-IsFilled_example =
    shown_table-IsFilled plain_figures insertion_sort 0 names cache_1 insertion_sort-Sorts
      cache_1-IsReady (omega arith) (omega arith)
      (λ id lt loud. (omega arith, omega arith, omega arith))

-- Started, in its first test of the flag, and then stopped while it draws.
abbrev stopped : Visualizer
stopped = record { running = false; thread = some rendering; frames = 0 }

stopped_reachable : Reach joining stopped
unfolding start loop_step store_stop
stopped_reachable = later (later (later made (starts refl)) loops) stops

Reach-Behaves_example : Behaves joining stopped
Reach-Behaves_example = Reach-Behaves joining stopped stopped_reachable
