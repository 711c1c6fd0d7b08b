-- ===== src/Cache/History.antt =====
-- Sequences of updates of include/cache.h: what a snapshot shows after any of them.
use market_data_handle.Prelude.{
  ℕ, suc, ◌+◌, ◌%◌, ◌<◌, ◌≡◌, refl, ap, ◌∙◌, Option, some, List, [], ◌∷◌, ◌==◌, if◌then◌else◌, u64,
  arith, All, All-get_or, All-replicate, get_or-replicate, length-replicate,
}
use mathlib.Core.Option
use market_data_handle.Cache.{
  MarketData, MarketState, SymbolCache, max_symbols, get_snapshot, fresh_state, no_data, init,
}
use market_data_handle.Cache.Seqlock.{Update}
use market_data_handle.Cache.Updates.{
  run_update, after, write_at, run_update_in, write_at-IsReady, write_at-fields, IsReady, IsQuiet,
  state_at, get_snapshot_ready,
}

-- A history: the symbol and the update of each call.
pub record Event : Type 0 where
  pub symbol : ℕ
  pub update : Update

unfoldable pub run_updates : List Event → SymbolCache → Option SymbolCache
unfolding run_update
run_updates [] c = some c
run_updates (e ∷ es) c = Option.bind (run_update e.update e.symbol c) (run_updates es)

-- What a history means for one symbol.
abbrev pub after_all : ℕ → List Event → MarketData → MarketData
after_all j [] d = d
after_all j (e ∷ es) d = after_all j es (if e.symbol == j then after e.update d else d)

abbrev pub count_updates : ℕ → List Event → ℕ
count_updates j [] = 0
count_updates j (e ∷ es) = (if e.symbol == j then 1 else 0) + count_updates j es

abbrev pub InRange : List Event → Type 0
InRange = All (λ (e : Event). e.symbol < max_symbols)

pub record Shown (c : SymbolCache) (es : List Event) : Type 0 where
  pub final : SymbolCache
  pub ran : run_updates es c ≡ some final
  pub ready : IsReady final
  pub fields : (j : ℕ) → (state_at final j).fields ≡ after_all j es (state_at c j).fields

pub run_updates-Shown : (es : List Event) (c : SymbolCache) → IsReady c → InRange es → Shown c es
unfolding run_updates Option.bind
run_updates-Shown [] c ready within = record {
  final = c;
  ran = refl;
  ready = ready;
  fields = λ j. refl;
}
run_updates-Shown (e ∷ es) c ready within =
    let ih =
      run_updates-Shown es (write_at e.update e.symbol c)
        (write_at-IsReady e.update e.symbol c ready) within.1 in
    record {
      final = ih.final;
      ran = rw (run_update_in e.update e.symbol c ready.0 within.0) ih.ran;
      ready = ih.ready;
      fields = λ j.
          ih.fields j
          ∙ ap (after_all j es)
              (write_at-fields e.update e.symbol c j (omega (arith, within.0, ready.0)));
    }

-- After any history of updates of symbols below `MAX_SYMBOLS`, on a cache that nobody is writing to:
-- every call of the history is in range, and `get_snapshot` of any symbol returns in its first
-- round, with an even version and the fields that the updates of that symbol alone, in their order,
-- make of the old ones.
pub run_updates-get_snapshot :
    (es : List Event) (c : SymbolCache) (rounds j : ℕ)
    → IsReady c
    → InRange es
    → j < max_symbols
    → (d : SymbolCache) × (s : MarketState) × (run_updates es c ≡ some d)
      × (get_snapshot (suc rounds) d j ≡ some s)
      × (s.version % 2 ≡ 0)
      × (s.fields ≡ after_all j es (state_at c j).fields)
run_updates-get_snapshot es c rounds j ready within lt =
    let shown = run_updates-Shown es c ready within in
    (
      shown.final,
      state_at shown.final j,
      shown.ran,
      get_snapshot_ready rounds shown.final j shown.ready lt,
      All-get_or IsQuiet shown.final j fresh_state refl shown.ready.1,
      shown.fields j,
    )

after_update_count :
    (u : Update) (d : MarketData) → (after u d).update_count ≡ u64 (d.update_count + 1)
after_update_count (Update.bid p q ts) d = refl
after_update_count (Update.ask p q ts) d = refl
after_update_count (Update.quote b bq a aq ts) d = refl
after_update_count (Update.trade p q ts) d = refl

after_all-update_count :
    (j : ℕ) (es : List Event) (d : MarketData)
    → u64 (after_all j es d).update_count ≡ u64 (d.update_count + count_updates j es)
after_all-update_count j [] d = omega arith
after_all-update_count j (e ∷ es) d =
    let next = if e.symbol == j then after e.update d else d in
    ground (arith, after_all-update_count j es next, after_update_count e.update d)

pub init-IsReady : IsReady init
init-IsReady =
    (length-replicate max_symbols fresh_state, All-replicate IsQuiet max_symbols fresh_state refl)

-- After a history of updates that starts from the constructor, the snapshot of a symbol counts in
-- `update_count`, modulo 2^64, the calls that named this symbol, whichever of the four they were.
pub run_updates-update_count :
    (es : List Event) (rounds j : ℕ)
    → InRange es
    → j < max_symbols
    → (d : SymbolCache) × (s : MarketState) × (run_updates es init ≡ some d)
      × (get_snapshot (suc rounds) d j ≡ some s)
      × (u64 s.fields.update_count ≡ u64 (count_updates j es))
run_updates-update_count es rounds j within lt =
    let (d, s, ran, got, even, fields) =
      run_updates-get_snapshot es init rounds j init-IsReady within lt in
    (
      d,
      s,
      ran,
      got,
      ap (λ (m : MarketData). u64 m.update_count)
            (fields
              ∙ ap (λ (m : MarketState). after_all j es m.fields)
                  (get_or-replicate max_symbols j fresh_state))
          ∙ after_all-update_count j es no_data
          ∙ ap u64 (omega arith),
    )
