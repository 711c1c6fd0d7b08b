-- ===== src/Client/Display/Screen/Table.antt =====
-- The lines of the table on the screen.
use market_data_handle.Prelude.{
  ℕ, zero, suc, ◌-◌, ◌≡◌, ◌≤◌, ◌<◌, refl, ap, some, Bool, List, [], ◌∷◌, ◌++◌, ◌==◌, if◌then◌else◌,
  length, get_or, length-take, All, replicate, arith, Bool-cases, inl, inr, ltb, true, false,
}
use market_data_handle.Text.{right, codes, to_string}
use market_data_handle.Text.Width.{length-left, length-right}
use market_data_handle.Cache.{SymbolCache, MarketData, max_symbols}
use market_data_handle.Cache.Updates.{state_at, IsReady, get_snapshot_ready}
use market_data_handle.Client.Display.{Entry, ranked}
use market_data_handle.Client.Display.Ranking.{entry, Sorts, ranked-top}
use market_data_handle.Client.Display.Screen.{
  Figures, Line, fill, name_of, table_line, table, shown_table,
}

-- The entries with updates.
abbrev pub updated : List Entry → List Entry
updated [] = []
updated (e ∷ es) = let more = updated es in if e.count == 0 then more else e ∷ more

length-name_of : (names : List (List ℕ)) (id : ℕ) → length (name_of names id) ≤ 12
unfolding name_of
length-name_of names id =
    let name = if ltb id (length names) then get_or names id [] else codes "SYM" ++ to_string id in
    ground (arith, length-take 12 name)

first_filled : (k c : ℕ) (s : List ℕ) → 0 < k → get_or (replicate k c ++ s) 0 32 ≡ c
first_filled zero c s pos = absurd (omega arith)
first_filled (suc k) c s pos = refl

-- A text shorter than its column is shown with a zero in front.
right_filled :
    (n : ℕ) (s : List ℕ)
    → length s < n
    → (length (right fill n s) ≡ n) × (get_or (right fill n s) 0 32 ≡ b'0')
unfolding right
right_filled n s lt =
    (omega (arith, length-right fill n s), first_filled (n - length s) fill s (omega arith))

-- The width of the name, and the width and the first byte of each price.
abbrev pub IsFilled : Line → Type 0
IsFilled l =
    (length l.name ≡ 13)
    × ((length l.bid ≡ 12) × (get_or l.bid 0 32 ≡ b'0'))
    × ((length l.ask ≡ 12) × (get_or l.ask 0 32 ≡ b'0'))
    × ((length l.last ≡ 12) × (get_or l.last 0 32 ≡ b'0'))

module _ {D : Type 0} (fig : Figures D) where
  -- The two quotes and the last price are printed in less than 12 bytes.
  abbrev pub IsShort : MarketData → Type 0
  IsShort s =
      (length (fig.fixed2 (fig.of_bits s.best_bid)) < 12)
      × (length (fig.fixed2 (fig.of_bits s.best_ask)) < 12)
      × (length (fig.fixed2 (fig.of_bits s.last_traded_price)) < 12)

  last_shown :
      (last bid : D) (traded : Bool)
      → length (fig.fixed2 bid) < 12
      → length (fig.fixed2 last) < 12
      → length (fig.fixed2 (if traded then last else bid)) < 12
  last_shown last bid true quoted sold = sold
  last_shown last bid false quoted sold = quoted

  table_line-IsFilled :
      (names : List (List ℕ)) (id : ℕ) (s : MarketData)
      → IsShort s
      → IsFilled (table_line fig names id s)
  unfolding table_line
  table_line-IsFilled names id s (bid, ask, last) = (
    omega (arith, length-left fill 13 (name_of names id), length-name_of names id),
    right_filled 12 (fig.fixed2 (fig.of_bits s.best_bid)) bid,
    right_filled 12 (fig.fixed2 (fig.of_bits s.best_ask)) ask,
    right_filled 12 (fig.fixed2 _) (last_shown _ _ _ bid last),
  )

  -- So are the prices of every symbol below `n` that has updates.
  abbrev pub AreShort : SymbolCache → ℕ → Type 0
  AreShort cache n =
      (id : ℕ)
      → id < n
      → let s = (state_at cache id).fields in (s.update_count == 0) ≡ false → IsShort s

  table_lines :
      (rounds : ℕ) (names : List (List ℕ)) (cache : SymbolCache) (n : ℕ) (es : List Entry)
      → IsReady cache
      → n ≤ max_symbols
      → AreShort cache n
      → All (λ (e : Entry). (e.id < n) × (e ≡ entry cache e.id)) es
      → (ls : List Line) × (table fig (suc rounds) names cache es ≡ some ls)
        × (length ls ≡ length (updated es))
        × All IsFilled ls
  unfolding table
  table_lines rounds names cache n [] ready fits short known = ([], refl, refl, tt)
  table_lines rounds names cache n (e ∷ es) ready fits short ((lt, same), known) =
      let (ls, rest, count, filled) = table_lines rounds names cache n es ready fits short known in
      let read = get_snapshot_ready rounds cache e.id ready (omega (arith, lt, fits)) in
      let snap = (state_at cache e.id).fields in
      let counts : e.count ≡ snap.update_count = ap (λ (f : Entry). f.count) same in
      elim (Bool-cases (snap.update_count == 0)) [
        | inl none_yet ↦
            let silent : (e.count == 0) ≡ true = ground (arith, counts, none_yet) in
            (ls, rw (read, rest, none_yet, table) refl, rw silent count, filled)
        | inr some_there ↦
            let loud : (e.count == 0) ≡ false = ground (arith, counts, some_there) in
            (
              table_line fig names e.id snap ∷ ls,
              rw (read, rest, some_there, table) refl,
              rw loud (ap suc count),
              (table_line-IsFilled names e.id snap (short e.id lt some_there), filled),
            )
      ]

  -- For a cache that nobody is writing to, one name or more and at most MAX_SYMBOLS, any sorting
  -- function, and prices of the symbols with updates that are printed in less than 12 bytes: the
  -- table has a line for each of the ranked symbols that has updates; in each line the name takes 13
  -- bytes and each price 12, and each price begins with a zero.
  pub shown_table-IsFilled :
      (sort : List Entry → List Entry) (rounds : ℕ) (names : List (List ℕ)) (cache : SymbolCache)
      → Sorts sort
      → IsReady cache
      → 0 < length names
      → length names ≤ max_symbols
      → AreShort cache (length names)
      → (es : List Entry) × (ls : List Line) × (ranked sort (suc rounds) cache (length names)
          ≡ some es)
        × (shown_table fig sort (suc rounds) names cache ≡ some ls)
        × (length ls ≡ length (updated es))
        × All IsFilled ls
  unfolding shown_table
  shown_table-IsFilled sort rounds names cache laws ready some_names fits short =
      let (es, shown, count, order, known, top) =
        ranked-top sort rounds cache (length names) 0 laws ready fits some_names in
      let (ls, made, lines, filled) =
        table_lines rounds names cache (length names) es ready fits short known in
      (es, ls, shown, rw (shown, made, shown_table) refl, lines, filled)
