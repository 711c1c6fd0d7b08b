-- ===== src/Client/Display/Ranking.antt =====
-- The ranking, from which the table is made, has the symbols with the most updates.
use mathlib.Core.Path.{subst}
use mathlib.Core.Option
use native.Mathlib.Decide.{ℕ_discrete}
use market_data_handle.Prelude.{
  ℕ, zero, suc, ◌+◌, ◌≤◌, ◌<◌, ◌≡◌, ◌⊎◌, refl, sym, ap, ◌∙◌, inl, inr, none, Option-cases,
  get_elem?, get_elem?_out, some, List, [], ◌∷◌, length, take, min, All, length-take, u16, arith,
}
use market_data_handle.Cache.{SymbolCache, max_symbols, get_snapshot}
use market_data_handle.Cache.Updates.{IsReady, state_at, get_snapshot_ready}
use market_data_handle.Client.Display.{Entry, collect, shown_at_most, ranked}

abbrev pub In : Entry → List Entry → Type 0
In e [] = ⊥
In e (x ∷ xs) = (e ≡ x) ⊎ In e xs

-- The counts do not rise.
abbrev pub IsRanked : List Entry → Type 0
IsRanked [] = Unit
IsRanked (e ∷ es) = All (λ (f : Entry). f.count ≤ e.count) es × IsRanked es

-- What `std::sort` does: the same entries, in order.
pub record Sorts (sort : List Entry → List Entry) : Type 0 where
  pub ordered : (es : List Entry) → IsRanked (sort es)
  pub kept : (es : List Entry) (e : Entry) → In e es → In e (sort es)
  pub none_new : (es : List Entry) (e : Entry) → In e (sort es) → In e es
  pub same_length : (es : List Entry) → length (sort es) ≡ length es

abbrev pub entry : SymbolCache → ℕ → Entry
entry cache i = record { count = (state_at cache i).fields.update_count; id = i }

abbrev entries : SymbolCache → ℕ → ℕ → List Entry
entries cache zero i = []
entries cache (suc n) i = entry cache i ∷ entries cache n (suc i)

length-entries : (cache : SymbolCache) (n i : ℕ) → length (entries cache n i) ≡ n
length-entries cache zero i = refl
length-entries cache (suc n) i = omega (arith, length-entries cache n (suc i))

In-entries :
    (cache : SymbolCache) (n i j : ℕ) → i ≤ j → j < i + n → In (entry cache j) (entries cache n i)
In-entries cache zero i j low high = absurd (omega arith)
In-entries cache (suc n) i j low high = elim (ℕ_discrete i j) [
  | yes e ↦ inl (ap (entry cache) (sym e))
  | no ne ↦ inr (In-entries cache n (suc i) j (omega arith) (omega arith))
]

entries_lem :
    (cache : SymbolCache) (n i : ℕ) (e : Entry)
    → In e (entries cache n i)
    → (e.id < i + n) × (e ≡ entry cache e.id)
entries_lem cache zero i e h = absurd h
entries_lem cache (suc n) i e (inl same) = rw same (omega arith, refl)
entries_lem cache (suc n) i e (inr rest) =
    let (lt, same) = entries_lem cache n (suc i) e rest in (omega arith, same)

pub collect_lem :
    (rounds : ℕ) (cache : SymbolCache) (n i : ℕ)
    → IsReady cache
    → i + n ≤ max_symbols
    → collect (suc rounds) cache n i ≡ some (entries cache n i)
unfolding collect
collect_lem rounds cache zero i ready fits = refl
collect_lem rounds cache (suc n) i ready fits =
    let short : u16 i ≡ i = omega arith in
    let read = get_snapshot_ready rounds cache i ready (omega arith) in
    rw (short, read, collect_lem rounds cache n (suc i) ready (omega arith), collect)
      (ap (λ (k : ℕ). some (record (entry cache i) { id = k } ∷ entries cache n (suc i))) short)

-- With more symbols than the cache has, the first loop leaves the array.
pub collect_out :
    (rounds n i : ℕ) (cache : SymbolCache)
    → length cache ≡ max_symbols
    → i ≤ max_symbols
    → max_symbols < i + n
    → collect rounds cache n i ≡ none
unfolding collect get_snapshot Option.bind
collect_out rounds zero i cache size low high = absurd (omega arith)
collect_out rounds (suc n) i cache size low high =
    let short : u16 i ≡ i = omega arith in
    elim (ℕ_discrete i max_symbols) [
      | yes e ↦
          let lost : get_elem? cache i ≡ none = get_elem?_out cache i (omega (arith, size, e)) in
          rw (short, lost, collect) refl
      | no ne ↦
          let rest = collect_out rounds n (suc i) cache size (omega arith) (omega arith) in
          elim (Option-cases (get_snapshot rounds cache i)) [
            | inl lost ↦ rw (short, lost, collect) refl
            | inr (snap, read) ↦ rw (short, read, rest, collect) refl
          ]
    ]

All-In : (P : Entry → Type 0) (es : List Entry) (e : Entry) → All P es → In e es → P e
All-In P [] e hs h = absurd h
All-In P (x ∷ es) e hs (inl same) = subst P (sym same) hs.0
All-In P (x ∷ es) e hs (inr rest) = All-In P es e hs.1 rest

In-All : (P : Entry → Type 0) (es : List Entry) → ((e : Entry) → In e es → P e) → All P es
In-All P [] h = tt
In-All P (x ∷ es) h = (h x (inl refl), In-All P es (λ e there. h e (inr there)))

In-take : (k : ℕ) (es : List Entry) (e : Entry) → In e (take k es) → In e es
In-take zero es e h = absurd h
In-take (suc k) [] e h = absurd h
In-take (suc k) (x ∷ es) e (inl same) = inl same
In-take (suc k) (x ∷ es) e (inr rest) = inr (In-take k es e rest)

take-IsRanked : (k : ℕ) (es : List Entry) → IsRanked es → IsRanked (take k es)
take-IsRanked zero es order = tt
take-IsRanked (suc k) [] order = tt
take-IsRanked (suc k) (x ∷ es) (most, order) = (
  In-All (λ f. f.count ≤ x.count) (take k es)
      (λ e h. All-In (λ f. f.count ≤ x.count) es e most (In-take k es e h)),
  take-IsRanked k es order,
)

In-split :
    (k : ℕ) (es : List Entry) (e : Entry)
    → IsRanked es
    → In e es
    → In e (take k es) ⊎ All (λ (f : Entry). e.count ≤ f.count) (take k es)
In-split zero es e order h = inr tt
In-split (suc k) [] e order h = absurd h
In-split (suc k) (x ∷ es) e order (inl same) = inl (inl same)
In-split (suc k) (x ∷ es) e (most, order) (inr rest) = elim (In-split k es e order rest) [
  | inl front ↦ inl (inr front)
  | inr below ↦ inr (All-In (λ f. f.count ≤ x.count) es e most rest, below)
]

-- For a cache that nobody is writing to, one symbol or more and at most MAX_SYMBOLS, and any sorting
-- function: the ranking from which the table is made has an entry for each symbol, or 20 entries; the
-- counts do not rise from entry to entry; each entry has the update count of its symbol; and a symbol
-- that is not in the ranking has no more updates than any that is.
pub ranked-top :
    (sort : List Entry → List Entry) (rounds : ℕ) (cache : SymbolCache) (n i : ℕ)
    → Sorts sort
    → IsReady cache
    → n ≤ max_symbols
    → i < n
    → (es : List Entry) × (ranked sort (suc rounds) cache n ≡ some es)
      × (length es ≡ min shown_at_most n)
      × IsRanked es
      × All (λ (e : Entry). (e.id < n) × (e ≡ entry cache e.id)) es
      × (In (entry cache i) es ⊎ All (λ (e : Entry). (entry cache i).count ≤ e.count) es)
unfolding ranked
ranked-top sort rounds cache n i laws ready fits lt =
    let all = entries cache n 0 in
    (
      take shown_at_most (sort all),
      rw (collect_lem rounds cache n 0 ready (omega arith), ranked) refl,
      length-take shown_at_most (sort all)
          ∙ ap (min shown_at_most) (laws.same_length all ∙ length-entries cache n 0),
      take-IsRanked shown_at_most (sort all) (laws.ordered all),
      In-All (λ e. (e.id < n) × (e ≡ entry cache e.id)) (take shown_at_most (sort all))
          (λ e h.
            let (low, same) =
              entries_lem cache n 0 e
                (laws.none_new all e (In-take shown_at_most (sort all) e h)) in
            (omega arith, same)),
      In-split shown_at_most (sort all) (entry cache i) (laws.ordered all)
          (laws.kept all (entry cache i) (In-entries cache n 0 i (omega arith) (omega arith))),
    )
