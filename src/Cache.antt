-- ===== src/Cache.antt =====
-- include/cache.h: the market state of each symbol behind a sequence lock.
-- A `double` is the number that its 64 bits spell. Here every operation runs alone; Cache/Seqlock
-- interleaves a writer and a reader, one memory access at a time.
pub mod Updates
pub mod History
pub mod Dump
pub mod Seqlock
mod Examples
use market_data_handle.Prelude.{
  ℕ, zero, suc, ◌+◌, ◌%◌, Bool, Option, none, some, List, [], ◌∷◌, ltb, ◌==◌, if◌then◌else◌,
  get_elem?, set, replicate, u32, u64,
}
use mathlib.Core.Option

-- The fields that an update writes and a snapshot is taken for.
pub record MarketData : Type 0 where
  pub best_bid : ℕ  -- double
  pub best_ask : ℕ  -- double
  pub bid_quantity : ℕ  -- uint32_t
  pub ask_quantity : ℕ  -- uint32_t
  pub last_traded_price : ℕ  -- double
  pub last_traded_quantity : ℕ  -- uint32_t
  pub last_update_time : ℕ  -- uint64_t
  pub update_count : ℕ  -- uint64_t

pub record MarketState : Type 0 where
  pub version : ℕ  -- std::atomic<uint32_t>
  pub fields : MarketData

abbrev pub no_data : MarketData
no_data = record {
  best_bid = 0;
  best_ask = 0;
  bid_quantity = 0;
  ask_quantity = 0;
  last_traded_price = 0;
  last_traded_quantity = 0;
  last_update_time = 0;
  update_count = 0;
}

abbrev pub fresh_state : MarketState
fresh_state = record { version = 0; fields = no_data }

-- One assignment in the body of an update.
pub data Store : Type 0 where
  set_best_bid : ℕ → Store
  set_best_ask : ℕ → Store
  set_bid_quantity : ℕ → Store
  set_ask_quantity : ℕ → Store
  set_last_traded_price : ℕ → Store
  set_last_traded_quantity : ℕ → Store
  set_last_update_time : ℕ → Store
  bump_update_count : Store

unfoldable pub apply_store : Store → MarketData → MarketData
apply_store (set_best_bid v) d = record d { best_bid = v }
apply_store (set_best_ask v) d = record d { best_ask = v }
apply_store (set_bid_quantity v) d = record d { bid_quantity = v }
apply_store (set_ask_quantity v) d = record d { ask_quantity = v }
apply_store (set_last_traded_price v) d = record d { last_traded_price = v }
apply_store (set_last_traded_quantity v) d = record d { last_traded_quantity = v }
apply_store (set_last_update_time v) d = record d { last_update_time = v }
apply_store bump_update_count d = record d { update_count = u64 (d.update_count + 1) }

unfoldable pub apply_stores : List Store → MarketData → MarketData
unfolding apply_store
apply_stores [] d = d
apply_stores (w ∷ ws) d = apply_stores ws (apply_store w d)

-- The assignments of the four updates, in their order, between `begin_write` and `end_write`.
abbrev pub bid_stores : ℕ → ℕ → ℕ → List Store
bid_stores price qty ts =
    set_best_bid price ∷ set_bid_quantity qty ∷ set_last_update_time ts ∷ bump_update_count ∷ []

abbrev pub ask_stores : ℕ → ℕ → ℕ → List Store
ask_stores price qty ts =
    set_best_ask price ∷ set_ask_quantity qty ∷ set_last_update_time ts ∷ bump_update_count ∷ []

abbrev pub quote_stores : ℕ → ℕ → ℕ → ℕ → ℕ → List Store
quote_stores bid bqty ask aqty ts =
    set_best_bid bid
    ∷ set_bid_quantity bqty
    ∷ set_best_ask ask
    ∷ set_ask_quantity aqty
    ∷ set_last_update_time ts
    ∷ bump_update_count
    ∷ []

abbrev pub trade_stores : ℕ → ℕ → ℕ → List Store
trade_stores price qty ts =
    set_last_traded_price price
    ∷ set_last_traded_quantity qty
    ∷ set_last_update_time ts
    ∷ bump_update_count
    ∷ []

-- `begin_write` and `end_write` both are `version.fetch_add(1)`, between fences.
unfoldable pub begin_write : MarketState → MarketState
begin_write s = record s { version = u32 (s.version + 1) }

unfoldable pub end_write : MarketState → MarketState
end_write s = record s { version = u32 (s.version + 1) }

unfoldable pub write : List Store → MarketState → MarketState
unfolding begin_write end_write apply_stores
write ws s =
    let begun = begin_write s in end_write (record begun { fields = apply_stores ws begun.fields })

abbrev pub max_symbols : ℕ
max_symbols = 500

abbrev pub SymbolCache : Type 0
SymbolCache = List MarketState

abbrev pub init : SymbolCache
init = replicate max_symbols fresh_state

-- `states_[sym]` is not checked: from `MAX_SYMBOLS` on the access is undefined, here `none`.
unfoldable pub at_symbol : ℕ → (MarketState → MarketState) → SymbolCache → Option SymbolCache
at_symbol sym f c = Option.map (λ s. set c sym (f s)) (get_elem? c sym)

unfoldable pub update_bid : ℕ → ℕ → ℕ → ℕ → SymbolCache → Option SymbolCache
unfolding at_symbol write
update_bid sym price qty ts c = at_symbol sym (write (bid_stores price qty ts)) c

unfoldable pub update_ask : ℕ → ℕ → ℕ → ℕ → SymbolCache → Option SymbolCache
unfolding at_symbol write
update_ask sym price qty ts c = at_symbol sym (write (ask_stores price qty ts)) c

unfoldable pub update_quote : ℕ → ℕ → ℕ → ℕ → ℕ → ℕ → SymbolCache → Option SymbolCache
unfolding at_symbol write
update_quote sym bid bqty ask aqty ts c =
    at_symbol sym (write (quote_stores bid bqty ask aqty ts)) c

unfoldable pub update_trade : ℕ → ℕ → ℕ → ℕ → SymbolCache → Option SymbolCache
unfolding at_symbol write
update_trade sym price qty ts c = at_symbol sym (write (trade_stores price qty ts)) c

-- The loop of `get_snapshot` on a state that nobody writes, with `v2` as the last round left it.
-- `continue` in a `do … while` goes to the test, so an odd version leaves `snap` and `v2` alone.
-- `none` when the rounds run out.
unfoldable pub snapshot_loop : ℕ → MarketState → MarketState → ℕ → Option MarketState
snapshot_loop zero s snap v2 = none
snapshot_loop (suc rounds) s snap v2 =
    let v1 = s.version in
    let busy = v1 % 2 == 1 in
    let snap' = if busy then snap else s in
    let v2' = if busy then v2 else s.version in
    let again = snapshot_loop rounds s snap' v2' in if v1 == v2' then some snap' else again

unfoldable pub get_snapshot : ℕ → SymbolCache → ℕ → Option MarketState
unfolding snapshot_loop
get_snapshot rounds c sym =
    Option.bind (get_elem? c sym) (λ s. snapshot_loop rounds s fresh_state 0)
