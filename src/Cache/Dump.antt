-- ===== src/Cache/Dump.antt =====
-- src/common/cache.cpp: `dump_cache`. The printing of double is a parameter, as is the table of
-- names, which may be missing as a whole or for one symbol.
use market_data_handle.Prelude.{
  ℕ, zero, suc, ◌≡◌, refl, ◌&&◌, false, not, Option, none, some, List, [], ◌∷◌, ◌++◌, ◌==◌,
  if◌then◌else◌, leb, ltb, concat, replicate, Bool-cases, inl, inr, arith, map,
}
use market_data_handle.Text.{codes, to_string, left, right}
use market_data_handle.Cache.{SymbolCache, MarketData, max_symbols, get_snapshot}
use market_data_handle.Cache.Updates.{state_at, IsReady, get_snapshot_ready}

abbrev pub blank : ℕ
blank = b' '

abbrev pub dump_heading : List ℕ
dump_heading =
    codes "Symbol       Bid         Ask         LTP         Updates"
    ++ b'\n' ∷ []
    ++ concat (replicate 57 (0xe2 ∷ 0x94 ∷ 0x80 ∷ []))
    ++ b'\n' ∷ []

module _ (fixed2 : ℕ → List ℕ) (symbol_names : Option (ℕ → Option (List ℕ))) where
  unfoldable pub dump_name : ℕ → List ℕ
  dump_name i = elim symbol_names [
    | none ↦ codes "???"
    | some names ↦ elim (names i) [ none ↦ codes "???" | some name ↦ name ]
  ]

  unfoldable pub dump_line : ℕ → MarketData → List ℕ
  unfolding dump_name
  dump_line i s =
      left blank 12 (dump_name i)
      ++ right blank 12 (fixed2 s.best_bid)
      ++ right blank 12 (fixed2 s.best_ask)
      ++ right blank 12 (fixed2 s.last_traded_price)
      ++ right blank 12 (to_string s.update_count)
      ++ b'\n' ∷ []

  -- The loop from symbol `i` on, with `n` rounds left at most; `none` as for `get_snapshot`.
  unfoldable pub dump_lines : ℕ → SymbolCache → ℕ → ℕ → ℕ → Option (List (List ℕ))
  unfolding dump_line
  dump_lines rounds cache to_sym zero i = some []
  dump_lines rounds cache to_sym (suc n) i =
      let rest = dump_lines rounds cache to_sym n (suc i) in
      let next : Option (List (List ℕ)) = elim (get_snapshot rounds cache i) [
        | none ↦ none
        | some snap ↦ elim rest [
          | none ↦ none
          | some ls ↦
              some (if snap.fields.update_count == 0 then ls else dump_line i snap.fields ∷ ls)
        ]
      ] in
      if leb i to_sym && ltb i max_symbols then next else some []

  -- No symbol is above `MAX_SYMBOLS`, so as many rounds are enough.
  unfoldable pub dump_cache : ℕ → SymbolCache → ℕ → ℕ → Option (List ℕ)
  unfolding dump_lines
  dump_cache rounds cache from_sym to_sym =
      elim (dump_lines rounds cache to_sym max_symbols from_sym) [
        | none ↦ none
        | some ls ↦ some (dump_heading ++ concat ls)
      ]

  -- The symbols from `i` on that are to be shown and have updates.
  abbrev pub shown : SymbolCache → ℕ → ℕ → ℕ → List ℕ
  shown cache to_sym zero i = []
  shown cache to_sym (suc n) i =
      let more = shown cache to_sym n (suc i) in
      if leb i to_sym && ltb i max_symbols && not ((state_at cache i).fields.update_count == 0)
      then i ∷ more
      else more

  out_of_range :
      (cache : SymbolCache) (to_sym n i : ℕ)
      → (leb i to_sym && ltb i max_symbols) ≡ false
      → shown cache to_sym n i ≡ []
  out_of_range cache to_sym zero i out = refl
  out_of_range cache to_sym (suc n) i out =
      let later : (leb (suc i) to_sym && ltb (suc i) max_symbols) ≡ false = ground (arith, out) in
      ground (arith, out, out_of_range cache to_sym n (suc i) later)

  dump_lines_ready :
      (rounds : ℕ) (cache : SymbolCache) (to_sym n i : ℕ)
      → IsReady cache
      → dump_lines (suc rounds) cache to_sym n i
        ≡ some (map (λ j. dump_line j (state_at cache j).fields) (shown cache to_sym n i))
  unfolding dump_lines
  dump_lines_ready rounds cache to_sym zero i ready = refl
  dump_lines_ready rounds cache to_sym (suc n) i ready =
      elim (Bool-cases (leb i to_sym && ltb i max_symbols)) [
        | inr out ↦
            let later : (leb (suc i) to_sym && ltb (suc i) max_symbols) ≡ false =
              ground (arith, out) in
            rw (out, out_of_range cache to_sym n (suc i) later, dump_lines) refl
        | inl here ↦
            let read = get_snapshot_ready rounds cache i ready (ground (arith, here)) in
            let rest = dump_lines_ready rounds cache to_sym n (suc i) ready in
            elim (Bool-cases ((state_at cache i).fields.update_count == 0)) [
              | inl silent ↦ rw (here, read, rest, silent, dump_lines) refl
              | inr loud ↦ rw (here, read, rest, loud, dump_lines) refl
            ]
      ]

  -- For a cache that nobody is writing to, and whatever the bounds are, above the array or in the
  -- wrong order: the dump does not leave the array, and it is the heading with a line for each symbol
  -- from the first to the second bound that exists and has updates, in rising order.
  pub dump_cache_lem :
      (rounds : ℕ) (cache : SymbolCache) (from_sym to_sym : ℕ)
      → IsReady cache
      → dump_cache (suc rounds) cache from_sym to_sym
        ≡ some (
            dump_heading
            ++ concat (
                map
                  (λ j. dump_line j (state_at cache j).fields)
                  (shown cache to_sym max_symbols from_sym)))
  unfolding dump_cache
  dump_cache_lem rounds cache from_sym to_sym ready =
      rw (dump_lines_ready rounds cache to_sym max_symbols from_sym ready, dump_cache) refl
