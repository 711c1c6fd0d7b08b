-- ===== src/Cache/Examples.antt =====
-- Runs of the cache of include/cache.h and of its sequence lock at concrete prices.
use market_data_handle.Prelude.{◌%◌, ◌≡◌, refl, some, none, List, [], ◌∷◌, arith, length-replicate}
use market_data_handle.Cache.{
  MarketData, MarketState, SymbolCache, init, max_symbols, fresh_state, no_data, begin_write,
  get_snapshot, apply_store, end_write,
}
use market_data_handle.Cache.Seqlock.{
  bid, ask, quote, trade, System, idle, loading, returned, begin, assign, finish, load_even,
  load_odd, copy, reload, again, leave, write, read, Reach, start, later, copy_field,
}
use market_data_handle.Cache.Seqlock.Invariant.{Among, returned_whole}
use market_data_handle.Cache.Seqlock.Progress.{Returns, idle-Returns}
use market_data_handle.Cache.Seqlock.Torn.{torn_read}
use market_data_handle.Cache.Updates.{run_update, state_at, run_update_out}
use market_data_handle.Cache.History.{
  Event, run_updates, after_all, InRange, init-IsReady, run_updates-get_snapshot,
}

abbrev bid_7 : MarketData
bid_7 = record no_data { best_bid = 7; bid_quantity = 70; last_update_time = 900; update_count = 1 }

-- One `update_bid`, then a snapshot.
abbrev after_bid : System
after_bid = record {
  shared = record {
    mem = record { version = 2; fields = bid_7 };
    ticks = 2;
    published = bid_7 ∷ no_data ∷ [];
  };
  writer = idle;
  locals = record { v1 = 2; v2 = 2; snap = bid_7 };
  pc = returned;
}

-- The same before the snapshot has begun anew; its first load came inside the update.
abbrev bid_done : System
bid_done = record {
  shared = after_bid.shared;
  writer = idle;
  locals = record { v1 = 1; v2 = 0; snap = no_data };
  pc = loading;
}

bid_done_reachable : Reach bid_done
unfolding begin_write end_write apply_store
bid_done_reachable =
    let w0 = later start (write (begin (bid 7 70 900))) in
    let busy = later w0 (read (load_odd refl)) in
    let round = later busy (read (again (omega arith))) in
    let w1 = later round (write assign) in
    let w2 = later w1 (write assign) in
    let w3 = later w2 (write assign) in let w4 = later w3 (write assign) in later w4 (write finish)

after_bid_reachable : Reach after_bid
unfolding copy_field
after_bid_reachable =
    let loaded = later bid_done_reachable (read (load_even refl)) in
    let c0 = later loaded (read (copy (omega arith))) in
    let c1 = later c0 (read (copy (omega arith))) in
    let c2 = later c1 (read (copy (omega arith))) in
    let c3 = later c2 (read (copy (omega arith))) in
    let c4 = later c3 (read (copy (omega arith))) in
    let c5 = later c4 (read (copy (omega arith))) in
    let c6 = later c5 (read (copy (omega arith))) in
    let c7 = later c6 (read (copy (omega arith))) in
    let c8 = later c7 (read (reload refl)) in later c8 (read (leave refl))

returned_whole_example : Among bid_7 (bid_7 ∷ no_data ∷ [])
returned_whole_example = returned_whole after_bid after_bid_reachable (omega arith) refl refl

torn_read_example :
    (s : System) × Reach s
    × (s.pc ≡ returned)
    × (s.writer ≡ idle)
    × (s.locals.snap.best_bid ≡ 11)
    × (s.locals.snap.best_ask ≡ 0)
    × (¬ Among s.locals.snap s.shared.published)
torn_read_example = torn_read 11 100 12 200 5 (omega arith) (omega arith)

abbrev history : List Event
history =
    record { symbol = 3; update = bid 7 70 900 }
    ∷ record { symbol = 4; update = quote 1 2 3 4 901 }
    ∷ record { symbol = 3; update = trade 8 80 902 }
    ∷ record { symbol = 3; update = ask 9 90 903 }
    ∷ []

history-InRange : InRange history
history-InRange = omega arith

run_updates-get_snapshot_example :
    (d : SymbolCache) × (s : MarketState) × (run_updates history init ≡ some d)
    × (get_snapshot 1 d 3 ≡ some s)
    × (s.version % 2 ≡ 0)
    × (s.fields ≡ after_all 3 history (state_at init 3).fields)
run_updates-get_snapshot_example =
    run_updates-get_snapshot history init 0 3 init-IsReady history-InRange (omega arith)

run_update_out_example :
    (run_update (bid 7 70 900) 500 init ≡ none) × (get_snapshot 10 init 500 ≡ none)
run_update_out_example =
    run_update_out (bid 7 70 900) 500 init 10 (length-replicate max_symbols fresh_state)
      (omega arith)

idle-Returns_example : Returns bid_done.shared 21 bid_done.locals loading
idle-Returns_example = idle-Returns bid_done bid_done_reachable (omega arith) refl
