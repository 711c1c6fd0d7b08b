-- ===== src/Cache/Seqlock/Invariant.antt =====
-- What holds in every reachable state of the sequence lock.
use market_data_handle.Prelude.{
  ℕ, suc, ◌%◌, ◌^◌, ◌≤◌, ◌<◌, ◌≡◌, ◌≢◌, refl, sym, ◌⊎◌, inl, inr, List, [], ◌∷◌, arith,
}
use mathlib.Core.Path.{subst}
use market_data_handle.Cache.{MarketData, begin_write, end_write}
use market_data_handle.Cache.Seqlock.{
  Shared, Writer, idle, writing, WriterMove, begin, assign, finish, Pc, loading, copying, testing,
  returned, Locals, copy_field, ReaderMove, load_even, load_odd, copy, reload, again, leave, System,
  write, read, Reach, start, later,
}

abbrev pub Among : MarketData → List MarketData → Type 0
Among d [] = ⊥
Among d (x ∷ xs) = (d ≡ x) ⊎ Among d xs

-- The first `k` fields are the same.
pub record Agree (k : ℕ) (a b : MarketData) : Type 0 where
  pub best_bid : 0 < k → a.best_bid ≡ b.best_bid
  pub best_ask : 1 < k → a.best_ask ≡ b.best_ask
  pub bid_quantity : 2 < k → a.bid_quantity ≡ b.bid_quantity
  pub ask_quantity : 3 < k → a.ask_quantity ≡ b.ask_quantity
  pub last_traded_price : 4 < k → a.last_traded_price ≡ b.last_traded_price
  pub last_traded_quantity : 5 < k → a.last_traded_quantity ≡ b.last_traded_quantity
  pub last_update_time : 6 < k → a.last_update_time ≡ b.last_update_time
  pub update_count : 7 < k → a.update_count ≡ b.update_count

Agree-copy_field : (k : ℕ) (d a : MarketData) → Agree k a d → Agree (suc k) (copy_field k d a) d
unfolding copy_field
Agree-copy_field k d a h = ground arith

Agree-eq : (a b : MarketData) → Agree 8 a b → a ≡ b
Agree-eq a b h = ground arith

-- The writer is inside an update exactly while the count of increments is odd.
abbrev pub WriterOk : Shared → Writer → Type 0
WriterOk m idle = (m.ticks % 2 ≡ 0) × Among m.mem.fields m.published
WriterOk m (writing ws) = m.ticks % 2 ≡ 1

abbrev ReaderOk : Shared → Locals → Pc → Type 0
ReaderOk m r loading = Unit
ReaderOk m r (copying k) =
    (r.v1 % 2 ≡ 0) × (r.v1 ≤ m.ticks) × (r.v1 ≡ m.ticks → Agree k r.snap m.mem.fields)
ReaderOk m r testing = r.v1 % 2 ≡ 0 → r.v1 ≡ r.v2 → Among r.snap m.published
ReaderOk m r returned = r.v1 % 2 ≡ 0 → Among r.snap m.published

pub record Inv (m : Shared) (w : Writer) (r : Locals) (p : Pc) : Type 0 where
  pub counted : m.mem.version ≡ m.ticks
  pub writer_ok : WriterOk m w
  pub reader_ok : ReaderOk m r p

-- Once taken, a consistent snapshot stays one: the writer only adds to what was published, and a
-- copy under way is void as soon as the version moves.
ReaderOk-kept :
    (m n : Shared) (r : Locals) (p : Pc)
    → m.ticks ≤ n.ticks
    → (r.v1 % 2 ≡ 0 → r.v1 ≤ m.ticks → r.v1 ≢ n.ticks)
    → ((d : MarketData) → Among d m.published → Among d n.published)
    → ReaderOk m r p
    → ReaderOk n r p
ReaderOk-kept m n r loading le ne more ok = ok
ReaderOk-kept m n r (copying k) le ne more ok = (ok.0, omega arith, λ e. absurd (ne ok.0 ok.1 e))
ReaderOk-kept m n r testing le ne more ok = λ even same. more r.snap (ok even same)
ReaderOk-kept m n r returned le ne more ok = λ even. more r.snap (ok even)

WriterMove-Inv :
    {m n : Shared} {w v : Writer} {r : Locals} {p : Pc}
    → WriterMove m w n v
    → n.ticks < 2 ^ 32
    → Inv m w r p
    → Inv n v r p
unfolding begin_write end_write
WriterMove-Inv {m} {n} {w} {v} {r} {p} (begin u) lt inv =
    let even = inv.writer_ok.0 in
    record {
      counted = omega (arith, inv.counted);
      writer_ok = omega arith;
      reader_ok =
          ReaderOk-kept m n r p (omega arith) (λ e le same. omega arith) (λ d h. h) inv.reader_ok;
    }
WriterMove-Inv {m} {n} {w} {v} {r} {p} assign lt inv =
    let odd = inv.writer_ok in
    record {
      counted = inv.counted;
      writer_ok = inv.writer_ok;
      reader_ok =
          ReaderOk-kept m n r p (omega arith) (λ e le same. omega arith) (λ d h. h) inv.reader_ok;
    }
WriterMove-Inv {m} {n} {w} {v} {r} {p} finish lt inv =
    let odd = inv.writer_ok in
    record {
      counted = omega (arith, inv.counted);
      writer_ok = (omega arith, inl refl);
      reader_ok =
          ReaderOk-kept m n r p (omega arith) (λ e le same. omega arith) (λ d h. inr h)
            inv.reader_ok;
    }

-- With an even version nobody is writing, so the memory holds what the last update left.
quiet :
    {m : Shared} {w : Writer} {r : Locals} {p : Pc}
    → Inv m w r p
    → m.mem.version % 2 ≡ 0
    → Among m.mem.fields m.published
quiet {w = idle} inv even = inv.writer_ok.1
quiet {w = writing ws} inv even = let odd = inv.writer_ok in absurd (omega (arith, inv.counted))

ReaderMove-Inv :
    {m : Shared} {w : Writer} {r q : Locals} {p o : Pc}
    → ReaderMove m r p q o
    → Inv m w r p
    → Inv m w q o
ReaderMove-Inv {m} (load_even even) inv = record {
  counted = inv.counted;
  writer_ok = inv.writer_ok;
  reader_ok = (even, omega (arith, inv.counted), λ e. ground arith);
}
ReaderMove-Inv (load_odd odd) inv = record {
  counted = inv.counted;
  writer_ok = inv.writer_ok;
  reader_ok = λ even same. absurd (omega arith);
}
ReaderMove-Inv {m} {w} {r} (copy {k} lt) inv =
    let ok = inv.reader_ok in
    record {
      counted = inv.counted;
      writer_ok = inv.writer_ok;
      reader_ok = (ok.0, ok.1, λ e. Agree-copy_field k m.mem.fields r.snap (ok.2 e));
    }
ReaderMove-Inv {m} {w} {r} (reload {k} full) inv =
    let ok = inv.reader_ok in
    let agree : r.v1 ≡ m.ticks → Agree 8 r.snap m.mem.fields =
      λ e. subst (λ (i : ℕ). Agree i r.snap m.mem.fields) full (ok.2 e) in
    record {
      counted = inv.counted;
      writer_ok = inv.writer_ok;
      reader_ok = λ even same.
          let whole = Agree-eq r.snap m.mem.fields (agree (omega (arith, inv.counted))) in
          subst (λ (d : MarketData). Among d m.published) (sym whole) (quiet inv (omega arith));
    }
ReaderMove-Inv (again ne) inv = record {
  counted = inv.counted;
  writer_ok = inv.writer_ok;
  reader_ok = tt;
}
ReaderMove-Inv (leave same) inv = record {
  counted = inv.counted;
  writer_ok = inv.writer_ok;
  reader_ok = λ even. inv.reader_ok even same;
}

WriterMove-ticks_le : {m n : Shared} {w v : Writer} → WriterMove m w n v → m.ticks ≤ n.ticks
WriterMove-ticks_le (begin u) = omega arith
WriterMove-ticks_le assign = omega arith
WriterMove-ticks_le finish = omega arith

pub Reach-Inv :
    {s : System} → Reach s → s.shared.ticks < 2 ^ 32 → Inv s.shared s.writer s.locals s.pc
Reach-Inv start lt = record { counted = refl; writer_ok = (refl, inl refl); reader_ok = tt }
Reach-Inv (later reach (write move)) lt =
    let le = WriterMove-ticks_le move in WriterMove-Inv move lt (Reach-Inv reach (omega arith))
Reach-Inv (later reach (read move)) lt = ReaderMove-Inv move (Reach-Inv reach lt)

-- In every interleaving of the writer's updates with one call of `get_snapshot`, as long as the
-- version was incremented fewer than 2^32 times: once the call has returned and the last version it
-- loaded was even, the snapshot is one that was published as a whole, the initial fields or the
-- fields at the end of some update.
pub returned_whole :
    (s : System)
    → Reach s
    → s.shared.ticks < 2 ^ 32
    → s.pc ≡ returned
    → s.locals.v1 % 2 ≡ 0
    → Among s.locals.snap s.shared.published
returned_whole s reach lt done even =
    let inv = Reach-Inv reach lt in subst (ReaderOk s.shared s.locals) done inv.reader_ok even
