-- ===== src/Cache/Seqlock.antt =====
-- include/cache.h: one writer and one reader of one symbol, interleaved in any order, one access of
-- shared memory at a time (sequentially consistent; the fences of the source aim at no less).
-- The writer runs updates for ever; the reader is one call of `get_snapshot`, from its entry to its
-- `return`. The eight fields are copied in the order of `MarketState::operator=`; its copy of the
-- version into the snapshot is left out, since nothing reads it there.
pub mod Invariant
pub mod Torn
pub mod Progress
use market_data_handle.Prelude.{ℕ, suc, ◌+◌, ◌%◌, ◌<◌, ◌≡◌, ◌≢◌, List, [], ◌∷◌, ◌==◌, if◌then◌else◌}
use market_data_handle.Cache.{
  MarketData, MarketState, no_data, fresh_state, Store, apply_store, bid_stores, ask_stores,
  quote_stores, trade_stores, begin_write, end_write,
}

-- A call of one of the four updates.
pub data Update : Type 0 where
  bid : ℕ → ℕ → ℕ → Update
  ask : ℕ → ℕ → ℕ → Update
  quote : ℕ → ℕ → ℕ → ℕ → ℕ → Update
  trade : ℕ → ℕ → ℕ → Update

abbrev pub stores : Update → List Store
stores (bid p q ts) = bid_stores p q ts
stores (ask p q ts) = ask_stores p q ts
stores (quote b bq a aq ts) = quote_stores b bq a aq ts
stores (trade p q ts) = trade_stores p q ts

-- The memory of the symbol, with two records of the past that no code reads: how often the version
-- was incremented, and the field values at the start and after each update, the last in front.
pub record Shared : Type 0 where
  pub mem : MarketState
  pub ticks : ℕ
  pub published : List MarketData

-- Outside an update, or inside one with the assignments that are left.
pub data Writer : Type 0 where
  idle : Writer
  writing : List Store → Writer

pub data WriterMove (m : Shared) : Writer → Shared → Writer → Type 0 where
  begin :
      (u : Update)
      → WriterMove m idle
          (record m { mem = begin_write m.mem; ticks = m.ticks + 1 })
          (writing (stores u))
  assign :
      {w : Store} {ws : List Store}
      → WriterMove m
          (writing (w ∷ ws))
          (record m { mem = record m.mem { fields = apply_store w m.mem.fields } })
          (writing ws)
  finish :
      WriterMove m
        (writing [])
        (record {
          mem = end_write m.mem;
          ticks = m.ticks + 1;
          published = m.mem.fields ∷ m.published;
        })
        idle

-- Where the reader stands: at the first load, with `k` fields copied, at the test, after `return`.
pub data Pc : Type 0 where
  loading : Pc
  copying : ℕ → Pc
  testing : Pc
  returned : Pc

-- The local variables of `get_snapshot`.
pub record Locals : Type 0 where
  pub v1 : ℕ
  pub v2 : ℕ
  pub snap : MarketData

-- Field number `k` of `operator=`.
unfoldable pub copy_field : ℕ → MarketData → MarketData → MarketData
copy_field k d snap =
    if k == 0
    then record snap { best_bid = d.best_bid }
    else if k == 1
    then record snap { best_ask = d.best_ask }
    else if k == 2
    then record snap { bid_quantity = d.bid_quantity }
    else if k == 3
    then record snap { ask_quantity = d.ask_quantity }
    else if k == 4
    then record snap { last_traded_price = d.last_traded_price }
    else if k == 5
    then record snap { last_traded_quantity = d.last_traded_quantity }
    else if k == 6
    then record snap { last_update_time = d.last_update_time }
    else record snap { update_count = d.update_count }

-- `load_odd` is the `continue`: it goes to the test of the loop, which compares with the `v2` of an
-- earlier round.
pub data ReaderMove (m : Shared) (r : Locals) : Pc → Locals → Pc → Type 0 where
  load_even :
      m.mem.version % 2 ≡ 0 → ReaderMove m r loading (record r { v1 = m.mem.version }) (copying 0)
  load_odd :
      m.mem.version % 2 ≡ 1 → ReaderMove m r loading (record r { v1 = m.mem.version }) testing
  copy :
      {k : ℕ}
      → k < 8
      → ReaderMove m r
          (copying k)
          (record r { snap = copy_field k m.mem.fields r.snap })
          (copying (suc k))
  reload : {k : ℕ} → k ≡ 8 → ReaderMove m r (copying k) (record r { v2 = m.mem.version }) testing
  again : r.v1 ≢ r.v2 → ReaderMove m r testing r loading
  leave : r.v1 ≡ r.v2 → ReaderMove m r testing r returned

pub record System : Type 0 where
  pub shared : Shared
  pub writer : Writer
  pub locals : Locals
  pub pc : Pc

pub data Step (s : System) : System → Type 0 where
  write :
      {m : Shared} {w : Writer}
      → WriterMove s.shared s.writer m w
      → Step s (record s { shared = m; writer = w })
  read :
      {r : Locals} {p : Pc}
      → ReaderMove s.shared s.locals s.pc r p
      → Step s (record s { locals = r; pc = p })

abbrev pub start_system : System
start_system = record {
  shared = record { mem = fresh_state; ticks = 0; published = no_data ∷ [] };
  writer = idle;
  locals = record { v1 = 0; v2 = 0; snap = no_data };
  pc = loading;
}

pub data Reach : System → Type 0 where
  start : Reach start_system
  later : {s t : System} → Reach s → Step s t → Reach t
