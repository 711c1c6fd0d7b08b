-- ===== src/Cache/Updates.antt =====
-- The four updates and `get_snapshot` of include/cache.h, one call after the other.
use market_data_handle.Prelude.{
  ℕ, zero, suc, ◌+◌, ◌%◌, ◌≤◌, ◌<◌, ◌≡◌, refl, sym, Option, none, some, ◌==◌, if◌then◌else◌, set,
  length, length-set, get_or, get_or-set_self, get_or-set_ne, get_elem?_in, get_elem?_out, All,
  All-set, All-get_or, ◌∙◌, u64, arith,
}
use mathlib.Core.Option
use native.Mathlib.Decide.{ℕ_discrete}
use market_data_handle.Cache.{
  MarketData, MarketState, SymbolCache, max_symbols, fresh_state, apply_store, apply_stores,
  begin_write, end_write, write, at_symbol, update_bid, update_ask, update_quote, update_trade,
  snapshot_loop, get_snapshot,
}
use market_data_handle.Cache.Seqlock.{Update, bid, ask, quote, trade, stores}

-- The call that an `Update` stands for.
unfoldable pub run_update : Update → ℕ → SymbolCache → Option SymbolCache
unfolding update_bid update_ask update_quote update_trade
run_update (bid p q ts) sym c = update_bid sym p q ts c
run_update (ask p q ts) sym c = update_ask sym p q ts c
run_update (quote b bq a aq ts) sym c = update_quote sym b bq a aq ts c
run_update (trade p q ts) sym c = update_trade sym p q ts c

-- What an update means: the fields that it names, the time, and one more update.
abbrev pub after : Update → MarketData → MarketData
after (bid p q ts) d = record d {
  best_bid = p;
  bid_quantity = q;
  last_update_time = ts;
  update_count = u64 (d.update_count + 1);
}
after (ask p q ts) d = record d {
  best_ask = p;
  ask_quantity = q;
  last_update_time = ts;
  update_count = u64 (d.update_count + 1);
}
after (quote b bq a aq ts) d = record d {
  best_bid = b;
  bid_quantity = bq;
  best_ask = a;
  ask_quantity = aq;
  last_update_time = ts;
  update_count = u64 (d.update_count + 1);
}
after (trade p q ts) d = record d {
  last_traded_price = p;
  last_traded_quantity = q;
  last_update_time = ts;
  update_count = u64 (d.update_count + 1);
}

write-fields : (u : Update) (s : MarketState) → (write (stores u) s).fields ≡ after u s.fields
unfolding write begin_write end_write apply_stores apply_store
write-fields (bid p q ts) s = refl
write-fields (ask p q ts) s = refl
write-fields (quote b bq a aq ts) s = refl
write-fields (trade p q ts) s = refl

-- No update is open.
abbrev pub IsQuiet : MarketState → Type 0
IsQuiet s = s.version % 2 ≡ 0

write-IsQuiet : (u : Update) (s : MarketState) → IsQuiet s → IsQuiet (write (stores u) s)
unfolding write begin_write end_write
write-IsQuiet u s h = omega arith

run_update_lem :
    (u : Update) (k : ℕ) (c : SymbolCache) → run_update u k c ≡ at_symbol k (write (stores u)) c
unfolding run_update update_bid update_ask update_quote update_trade
run_update_lem (bid p q ts) k c = refl
run_update_lem (ask p q ts) k c = refl
run_update_lem (quote b bq a aq ts) k c = refl
run_update_lem (trade p q ts) k c = refl

-- Every symbol is there, and none is being written.
abbrev pub IsReady : SymbolCache → Type 0
IsReady c = (length c ≡ max_symbols) × All IsQuiet c

abbrev pub state_at : SymbolCache → ℕ → MarketState
state_at c j = get_or c j fresh_state

-- `get_snapshot` on a symbol that no update is open for: the state itself, after one round.
snapshot_loop_quiet :
    (rounds : ℕ) (s snap : MarketState) (v2 : ℕ)
    → IsQuiet s
    → snapshot_loop (suc rounds) s snap v2 ≡ some s
unfolding snapshot_loop
snapshot_loop_quiet rounds s snap v2 h = ground arith

snapshot_loop_busy :
    (rounds : ℕ) (s snap : MarketState) → s.version % 2 ≡ 1 → snapshot_loop rounds s snap 0 ≡ none
unfolding snapshot_loop
snapshot_loop_busy zero s snap h = refl
snapshot_loop_busy (suc rounds) s snap h = ground (arith, snapshot_loop_busy rounds s snap h)

pub get_snapshot_ready :
    (rounds : ℕ) (c : SymbolCache) (j : ℕ)
    → IsReady c
    → j < max_symbols
    → get_snapshot (suc rounds) c j ≡ some (state_at c j)
unfolding get_snapshot Option.bind
get_snapshot_ready rounds c j (len, quiet) lt = rw (get_elem?_in c j fresh_state (omega arith)) (
    snapshot_loop_quiet rounds (state_at c j) fresh_state 0
      (All-get_or IsQuiet c j fresh_state refl quiet))

-- A reader of a symbol whose update is open and never ends stays in the loop for ever.
pub get_snapshot_busy :
    (rounds : ℕ) (c : SymbolCache) (j : ℕ)
    → length c ≡ max_symbols
    → j < max_symbols
    → (state_at c j).version % 2 ≡ 1
    → get_snapshot rounds c j ≡ none
unfolding get_snapshot Option.bind
get_snapshot_busy rounds c j len lt odd =
    rw (get_elem?_in c j fresh_state (omega arith))
      (snapshot_loop_busy rounds (state_at c j) fresh_state odd)

-- A symbol from `MAX_SYMBOLS` on has no state: each of the four updates and `get_snapshot` leave the
-- array.
pub run_update_out :
    (u : Update) (k : ℕ) (c : SymbolCache) (rounds : ℕ)
    → length c ≡ max_symbols
    → max_symbols ≤ k
    → (run_update u k c ≡ none) × (get_snapshot rounds c k ≡ none)
unfolding at_symbol get_snapshot Option.bind
run_update_out u k c rounds len le = (
  run_update_lem u k c ∙ rw (get_elem?_out c k (omega arith)) refl,
  rw (get_elem?_out c k (omega arith)) refl,
)

abbrev pub write_at : Update → ℕ → SymbolCache → SymbolCache
write_at u k c = set c k (write (stores u) (state_at c k))

pub run_update_in :
    (u : Update) (k : ℕ) (c : SymbolCache)
    → length c ≡ max_symbols
    → k < max_symbols
    → run_update u k c ≡ some (write_at u k c)
unfolding at_symbol
run_update_in u k c len lt =
    run_update_lem u k c ∙ rw (get_elem?_in c k fresh_state (omega arith)) refl

pub write_at-IsReady : (u : Update) (k : ℕ) (c : SymbolCache) → IsReady c → IsReady (write_at u k c)
write_at-IsReady u k c (len, quiet) = (
  length-set c k _ ∙ len,
  All-set IsQuiet c k _ (write-IsQuiet u _ (All-get_or IsQuiet c k fresh_state refl quiet)) quiet,
)

pub write_at-fields :
    (u : Update) (k : ℕ) (c : SymbolCache) (j : ℕ)
    → k < length c
    → (state_at (write_at u k c) j).fields
      ≡ (if k == j then after u (state_at c j).fields else (state_at c j).fields)
write_at-fields u k c j lt = elim (ℕ_discrete k j) [
  | yes e ↦ rw (sym e) (
      rw (get_or-set_self c k (write (stores u) (state_at c k)) fresh_state lt)
        (ground (arith, write-fields u (state_at c k))))
  | no ne ↦ rw (get_or-set_ne c k j (write (stores u) (state_at c k)) fresh_state ne) (ground arith)
]
