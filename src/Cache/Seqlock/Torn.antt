-- ===== src/Cache/Seqlock/Torn.antt =====
-- The `continue` of `get_snapshot` under an unlucky writer.
use market_data_handle.Prelude.{ℕ, ◌≡◌, ◌≢◌, refl, sym, ap, inl, inr, [], ◌∷◌, arith}
use market_data_handle.Cache.{
  MarketData, apply_store, begin_write, end_write, no_data, quote_stores, apply_stores,
}
use market_data_handle.Cache.Seqlock.Invariant.{Among}
use market_data_handle.Cache.Seqlock.{
  quote, idle, begin, assign, finish, returned, copy_field, load_even, load_odd, copy, reload,
  again, leave, System, write, read, Reach, start, later,
}

-- The fields while the first `quote` is stored, after the two of the bid.
abbrev half_quote : ℕ → ℕ → MarketData
half_quote b bq = record no_data { best_bid = b; best_ask = 0; bid_quantity = bq }

abbrev whole_quote : ℕ → ℕ → ℕ → ℕ → ℕ → MarketData
whole_quote b bq a aq ts = apply_stores (quote_stores b bq a aq ts) no_data

abbrev torn_system : ℕ → ℕ → ℕ → ℕ → ℕ → System
unfolding apply_stores apply_store
torn_system b bq a aq ts = record {
  shared = record {
    mem = record { version = 2; fields = whole_quote b bq a aq ts };
    ticks = 2;
    published = whole_quote b bq a aq ts ∷ no_data ∷ [];
  };
  writer = idle;
  locals = record { v1 = 1; v2 = 1; snap = half_quote b bq };
  pc = returned;
}

-- The reader loads an even version; the writer begins and stores the bid; the reader copies all
-- fields, loads version 1, goes round, finds it odd, and the test compares it with itself.
torn_system_reachable : (b bq a aq ts : ℕ) → Reach (torn_system b bq a aq ts)
unfolding copy_field begin_write end_write apply_store apply_stores
torn_system_reachable b bq a aq ts =
    let loaded = later start (read (load_even refl)) in
    let w1 = later loaded (write (begin (quote b bq a aq ts))) in
    let w2 = later w1 (write assign) in
    let w3 = later w2 (write assign) in
    let c0 = later w3 (read (copy (omega arith))) in
    let c1 = later c0 (read (copy (omega arith))) in
    let c2 = later c1 (read (copy (omega arith))) in
    let c3 = later c2 (read (copy (omega arith))) in
    let c4 = later c3 (read (copy (omega arith))) in
    let c5 = later c4 (read (copy (omega arith))) in
    let c6 = later c5 (read (copy (omega arith))) in
    let c7 = later c6 (read (copy (omega arith))) in
    let c8 = later c7 (read (reload refl)) in
    let c9 = later c8 (read (again (omega arith))) in
    let d0 = later c9 (read (load_odd refl)) in
    let d1 = later d0 (read (leave refl)) in
    let w4 = later d1 (write assign) in
    let w5 = later w4 (write assign) in
    let w6 = later w5 (write assign) in let w7 = later w6 (write assign) in later w7 (write finish)

-- For every first quote with a bid and an ask price other than 0 there is an interleaving in which
-- `get_snapshot` returns and the writer ends its update, but the snapshot, which has the new bid
-- price beside the old ask price, is no field values that were ever published.
pub torn_read :
    (b bq a aq ts : ℕ)
    → b ≢ 0
    → a ≢ 0
    → (s : System) × Reach s
      × (s.pc ≡ returned)
      × (s.writer ≡ idle)
      × (s.locals.snap.best_bid ≡ b)
      × (s.locals.snap.best_ask ≡ 0)
      × (¬ Among s.locals.snap s.shared.published)
unfolding apply_store apply_stores
torn_read b bq a aq ts hb ha = (
  torn_system b bq a aq ts,
  torn_system_reachable b bq a aq ts,
  refl,
  refl,
  refl,
  refl,
  λ h. elim h [
    | inl e ↦ ha (sym (ap (λ (d : MarketData). d.best_ask) e))
    | inr h2 ↦ elim h2 [ inl e ↦ hb (ap (λ (d : MarketData). d.best_bid) e) | inr h3 ↦ absurd h3 ]
  ],
)
