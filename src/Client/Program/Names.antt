-- ===== src/Client/Program/Names.antt =====
-- The names of the symbols are distinct.
use market_data_handle.Prelude.{
  ℕ, zero, suc, ◌+◌, ◌≡◌, ◌≢◌, ◌<◌, ◌≤◌, refl, sym, ap, ◌∙◌, Bool, true, false, ◌&&◌, ◌||◌, not,
  none, some, List, [], ◌∷◌, ◌++◌, length, get_or, take, drop, ltb, inl, inr, ◌⊎◌, Bool-cases,
  lt→ltb, arith, IsU64,
}
use market_data_handle.Text.{codes, same, to_string, stoul, value}
use market_data_handle.Text.Decimal.{stoul-to_string}
use market_data_handle.Client.Program.{nse_names, symbol_name, names_from, make_symbol_names}

same_refl : (s : List ℕ) → same s s ≡ true
same_refl [] = refl
same_refl (c ∷ s) = ground (arith, same_refl s)

same-of_eq : {s t : List ℕ} → s ≡ t → same s t ≡ true
same-of_eq {s} e = ap (same s) (sym e) ∙ same_refl s

-- No name is there twice, as a test.
abbrev occurs : List ℕ → List (List ℕ) → Bool
occurs s [] = false
occurs s (t ∷ ts) = same s t || occurs s ts

abbrev all_distinct : List (List ℕ) → Bool
all_distinct [] = true
all_distinct (s ∷ ss) = not (occurs s ss) && all_distinct ss

occurs-get_or :
    (s : List ℕ) (ts : List (List ℕ)) (i : ℕ)
    → i < length ts
    → occurs s ts ≡ false
    → same s (get_or ts i []) ≡ false
occurs-get_or s [] i lt h = absurd (omega arith)
occurs-get_or s (t ∷ ts) zero lt h = ground (arith, h)
occurs-get_or s (t ∷ ts) (suc i) lt h = occurs-get_or s ts i (omega arith) (ground (arith, h))

all_distinct-get_or :
    (ss : List (List ℕ)) (i j : ℕ)
    → all_distinct ss ≡ true
    → i < j
    → j < length ss
    → same (get_or ss i []) (get_or ss j []) ≡ false
all_distinct-get_or [] i j h ij lt = absurd (omega arith)
all_distinct-get_or (s ∷ ss) i zero h ij lt = absurd (omega arith)
all_distinct-get_or (s ∷ ss) zero (suc j) h ij lt =
    occurs-get_or s ss j (omega arith) (ground (arith, h))
all_distinct-get_or (s ∷ ss) (suc i) (suc j) h ij lt =
    all_distinct-get_or ss i j (ground (arith, h)) (omega arith) (omega arith)

known_distinct : all_distinct nse_names ≡ true
known_distinct = refl

-- The listed names do not begin like the others.
abbrev is_plain : List ℕ → Bool
is_plain s = not (same (take 3 s) (codes "SYM"))

abbrev all_plain : List (List ℕ) → Bool
all_plain [] = true
all_plain (s ∷ ss) = is_plain s && all_plain ss

all_plain-get_or :
    (ss : List (List ℕ)) (i : ℕ)
    → all_plain ss ≡ true
    → i < length ss
    → is_plain (get_or ss i []) ≡ true
all_plain-get_or [] i h lt = absurd (omega arith)
all_plain-get_or (s ∷ ss) zero h lt = ground (arith, h)
all_plain-get_or (s ∷ ss) (suc i) h lt = all_plain-get_or ss i (ground (arith, h)) (omega arith)

to_string-inj : (i j : ℕ) → IsU64 i → IsU64 j → to_string i ≡ to_string j → i ≡ j
to_string-inj i j small small' e =
    let same_value : value i ≡ value j =
      sym (stoul-to_string i small) ∙ ap stoul e ∙ stoul-to_string j small' in
    cc same_value

known_name : (i : ℕ) → i < 50 → symbol_name i ≡ get_or nse_names i []
unfolding symbol_name
known_name i lt = rw (lt→ltb i 50 lt, symbol_name) refl

other_name : (i : ℕ) → 50 ≤ i → symbol_name i ≡ codes "SYM" ++ to_string i
unfolding symbol_name
other_name i le = let out : ltb i 50 ≡ false = ground arith in rw (out, symbol_name) refl

known_name-ne : (i j : ℕ) → i < j → j < 50 → symbol_name i ≢ symbol_name j
known_name-ne i j ij lt e =
    let differ = all_distinct-get_or nse_names i j refl ij lt in
    let agree = same-of_eq (sym (known_name i (omega (arith, ij, lt))) ∙ e ∙ known_name j lt) in
    ground (arith, differ, agree)

known-ne-other : (i j : ℕ) → i < 50 → 50 ≤ j → symbol_name i ≢ symbol_name j
known-ne-other i j lt le e =
    let plain = all_plain-get_or nse_names i refl lt in
    let odd : is_plain (codes "SYM" ++ to_string j) ≡ true =
      ap is_plain (sym (sym (known_name i lt) ∙ e ∙ other_name j le)) ∙ plain in
    ground (arith, odd)

compare-cases : (i j : ℕ) → (i < j) ⊎ ((j < i) ⊎ (i ≡ j))
compare-cases i j = ground arith

symbol_name-inj : (i j : ℕ) → IsU64 i → IsU64 j → symbol_name i ≡ symbol_name j → i ≡ j
symbol_name-inj i j small small' e = elim (Bool-cases (ltb i 50)) [
  | inl known ↦ elim (Bool-cases (ltb j 50)) [
    | inl known' ↦ elim (compare-cases i j) [
      | inl before ↦ absurd (known_name-ne i j before (ground (arith, known')) e)
      | inr (inl after) ↦ absurd (known_name-ne j i after (ground (arith, known)) (sym e))
      | inr (inr equal) ↦ equal
    ]
    | inr other' ↦ absurd (known-ne-other i j (ground (arith, known)) (ground (arith, other')) e)
  ]
  | inr other ↦ elim (Bool-cases (ltb j 50)) [
    | inl known' ↦
        absurd (known-ne-other j i (ground (arith, known')) (ground (arith, other)) (sym e))
    | inr other' ↦ to_string-inj i j small small' (
        ap (drop 3)
          (sym (other_name i (ground (arith, other))) ∙ e ∙ other_name j (ground (arith, other'))))
  ]
]

pub length-names_from : (n i : ℕ) → length (names_from n i) ≡ n
unfolding names_from
length-names_from zero i = refl
length-names_from (suc n) i = ap suc (length-names_from n (suc i))

get_or-names_from : (n i j k : ℕ) → j < n → k ≡ i + j → get_or (names_from n i) j [] ≡ symbol_name k
unfolding names_from
get_or-names_from zero i j k lt at = absurd (omega arith)
get_or-names_from (suc n) i zero k lt at = let first : i ≡ k = omega arith in ap symbol_name first
get_or-names_from (suc n) i (suc j) k lt at =
    get_or-names_from n (suc i) j k (omega arith) (omega arith)

-- For any number of symbols below 2^64: if `reserve` throws there are no names; if it returns, there
-- are as many, and two symbols that have the same name are one.
pub make_symbol_names-inj :
    (reserve : ℕ → Bool) (n : ℕ)
    → IsU64 n
    → ((reserve n ≡ false) × (make_symbol_names reserve n ≡ none))
      ⊎ ((names : List (List ℕ)) × (make_symbol_names reserve n ≡ some names)
          × (length names ≡ n)
          × ((i j : ℕ) → i < n → j < n → get_or names i [] ≡ get_or names j [] → i ≡ j))
unfolding make_symbol_names
make_symbol_names-inj reserve n small = elim (Bool-cases (reserve n)) [
  | inr full ↦ inl (full, rw full refl)
  | inl room ↦ inr (
    names_from n 0,
    rw room refl,
    length-names_from n 0,
    λ i j lt lt' e. symbol_name-inj i j (omega arith) (omega arith) (
        sym (get_or-names_from n 0 i i lt (omega arith))
        ∙ e
        ∙ get_or-names_from n 0 j j lt' (omega arith)),
  )
]
