-- ===== src/Client/Display.antt =====
-- src/client/visualizer.cpp: the ranking of the symbols, and the numbers that the dashboard shows;
-- Screen has the whole of `render`. `std::sort` is a parameter.
pub mod Lifetime
pub mod Commas
pub mod Ranking
pub mod Screen
mod Examples
use market_data_handle.Prelude.{
  ℕ, zero, suc, ◌+◌, ◌-◌, ◌*◌, ◌/◌, ◌%◌, Option, none, some, List, [], ◌∷◌, ◌++◌, ◌==◌,
  if◌then◌else◌, ltb, length, take, drop, u16,
}
use market_data_handle.Text.{to_string}
use market_data_handle.Cache.{MarketState, SymbolCache, get_snapshot}

abbrev pub comma : ℕ
comma = b','

-- `s.insert(ins, ",")`
unfoldable pub insert_comma : ℕ → List ℕ → List ℕ
insert_comma ins s = take ins s ++ comma ∷ drop ins s

-- The loop of `fmt_large`. Its `int` may fall below 0, where `-` stops; both end the loop.
unfoldable pub comma_loop : ℕ → ℕ → List ℕ → List ℕ
unfolding insert_comma
comma_loop zero ins s = s
comma_loop (suc fuel) ins s =
    let more = comma_loop fuel (ins - 3) (insert_comma ins s) in if ltb 0 ins then more else s

unfoldable pub fmt_large : ℕ → List ℕ
unfolding to_string comma_loop
fmt_large n = let s = to_string n in comma_loop (length s) (length s - 3) s

-- An entry of `ranked`: the update count and the symbol.
pub record Entry : Type 0 where
  pub count : ℕ
  pub id : ℕ  -- uint16_t

-- The first loop of `render`, from symbol `i` on with `n` symbols left. `none` where a snapshot is
-- out of the cache's range, or takes more rounds than `rounds`.
unfoldable pub collect : ℕ → SymbolCache → ℕ → ℕ → Option (List Entry)
collect rounds cache zero i = some []
collect rounds cache (suc n) i = elim (get_snapshot rounds cache (u16 i)) [
  | none ↦ none
  | some snap ↦ elim (collect rounds cache n (suc i)) [
    | none ↦ none
    | some es ↦ some (record { count = snap.fields.update_count; id = u16 i } ∷ es)
  ]
]

abbrev pub shown_at_most : ℕ
shown_at_most = 20

-- `ranked` as the table shows it.
unfoldable pub ranked : (List Entry → List Entry) → ℕ → SymbolCache → ℕ → Option (List Entry)
unfolding collect
ranked sort rounds cache num_symbols = elim (collect rounds cache num_symbols 0) [
  | none ↦ none
  | some es ↦ some (take shown_at_most (sort es))
]

-- The line with the uptime: hours, minutes, seconds, the messages and their rate.
pub record Summary : Type 0 where
  pub hours : ℕ
  pub minutes : ℕ
  pub seconds : ℕ
  pub total : List ℕ
  pub rate : List ℕ

unfoldable pub summary : ℕ → ℕ → Summary
unfolding fmt_large
summary secs total = record {
  hours = secs / 3600;
  minutes = secs % 3600 / 60;
  seconds = secs % 60;
  total = fmt_large total;
  rate = fmt_large (if ltb 0 secs then total / secs else 0);
}
