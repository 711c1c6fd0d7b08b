-- ===== src/Server/Generator.antt =====
-- src/server/tick_generator.h and tick_generator.cpp: prices by geometric Brownian motion, and the
-- sealed messages made of them.
-- The arithmetic of `double`, the random engine, its distributions and the steady clock are
-- parameters: `D` is the type of doubles, `R` the state of the engine and of the clock.
pub mod Prices
pub mod Seals
use mathlib.Core.Option
use market_data_handle.Prelude.{
  ℕ, zero, suc, ◌+◌, Bool, true, false, ◌||◌, Option, none, some, List, [], ◌∷◌, ◌++◌,
  if◌then◌else◌, get_elem?, set,
}
use market_data_handle.Protocol.{
  MsgHeader, TradePay, QuotePay, TradeMsg, QuoteMsg, HeartbeatMsg, trade, quote, heartbeat,
  msg_trade, msg_quote, msg_heartbeat, compute_checksum, body_bytes,
}
use market_data_handle.Server.Exchange.{TickSource}

pub record Doubles (D R : Type 0) : Type 0 where
  pub literal : ℕ → ℕ → D  -- `literal n k` is n / 10^k
  pub negate : D → D
  pub add : D → D → D
  pub sub : D → D → D
  pub mul : D → D → D
  pub div : D → D → D
  pub sqrt : D → D
  pub log : D → D
  pub exp : D → D
  pub lt : D → D → Bool
  pub ge : D → D → Bool
  pub eq : D → D → Bool
  pub bits : D → ℕ  -- the 64 bits of the value
  pub to_u32 : D → ℕ  -- static_cast<uint32_t>
  pub uniform : D → D → R → D × R
  pub lognormal : D → D → R → D × R  -- the first draw of a new distribution
  pub lognormal_pair : D → D → R → D × D × R  -- the first two draws of a new distribution
  pub now_ns : R → ℕ × R

pub record SymbolState (D : Type 0) : Type 0 where
  pub price : D
  pub initial_price : D
  pub mu : D
  pub sigma : D

pub record TickGenerator (D R : Type 0) : Type 0 where
  pub rng : R
  pub symbols : List (SymbolState D)
  pub has_spare : Bool
  pub spare : D

-- A message with the sum of the bytes in front of its checksum.
abbrev pub seal_quote : MsgHeader → QuotePay → QuoteMsg
seal_quote h p = record {
  header = h;
  payload = p;
  checksum =
      compute_checksum (body_bytes (quote (record { header = h; payload = p; checksum = 0 })));
}

abbrev pub seal_trade : MsgHeader → TradePay → TradeMsg
seal_trade h p = record {
  header = h;
  payload = p;
  checksum =
      compute_checksum (body_bytes (trade (record { header = h; payload = p; checksum = 0 })));
}

abbrev pub seal_heartbeat : MsgHeader → HeartbeatMsg
seal_heartbeat h = record {
  header = h;
  checksum = compute_checksum (body_bytes (heartbeat (record { header = h; checksum = 0 })));
}

module _ {D R : Type 0} (dbl : Doubles D R) where
  open dbl use {
    literal, negate, add, sub, mul, div, sqrt, log, exp, lt, ge, eq, bits, to_u32, uniform,
    lognormal, lognormal_pair, now_ns,
  }

  abbrev one : D
  one = literal 1 0

  -- The `do … while` of `normal_sample`: `u`, `v` and `s` of the first round that is kept, or `none`
  -- when the rounds run out.
  unfoldable pub polar_loop : ℕ → R → Option (D × D × D × R)
  polar_loop zero rng = none
  polar_loop (suc rounds) rng =
      let a = uniform (literal 0 0) one rng in
      let u = sub (mul a.0 (literal 2 0)) one in
      let b = uniform (literal 0 0) one a.1 in
      let v = sub (mul b.0 (literal 2 0)) one in
      let s = add (mul u u) (mul v v) in
      let again = polar_loop rounds b.1 in
      if ge s one || eq s (literal 0 0) then again else some (u, v, s, b.1)

  -- The end of `normal_sample`: one value is returned, the other is the spare.
  unfoldable pub keep_pair : D × D × D × R → TickGenerator D R → D × TickGenerator D R
  keep_pair (u, v, s, rng) g =
      let m = sqrt (div (mul (negate (literal 2 0)) (log s)) s) in
      (mul u m, record g { rng = rng; has_spare = true; spare = mul v m })

  unfoldable pub normal_sample : ℕ → TickGenerator D R → Option (D × TickGenerator D R)
  unfolding polar_loop keep_pair
  normal_sample rounds g =
      if g.has_spare
      then some (g.spare, record g { has_spare = false })
      else Option.map (λ r. keep_pair r g) (polar_loop rounds g.rng)

  -- The price after one step, held between 1 and 10^6.
  unfoldable pub next_price : D → SymbolState D → D
  next_price z s =
      let dt = literal 1 3 in
      let exponent =
        add (mul (sub s.mu (mul (mul (literal 5 1) s.sigma) s.sigma)) dt)
          (mul (mul s.sigma (sqrt dt)) z) in
      let p = mul s.price (exp exponent) in
      let low = if lt p one then one else p in
      if lt (literal 1000000 0) low then literal 1000000 0 else low

  -- The assignment to the symbol's price, with the sample that was drawn.
  unfoldable pub move_symbol :
      ℕ → SymbolState D → D × TickGenerator D R → SymbolState D × TickGenerator D R
  unfolding next_price
  move_symbol sym s (z, g) =
      let moved = record s { price = next_price z s } in
      (moved, record g { symbols = set g.symbols sym moved })

  unfoldable pub step : ℕ → ℕ → TickGenerator D R → Option (SymbolState D × TickGenerator D R)
  unfolding normal_sample move_symbol
  step rounds sym g =
      Option.bind (get_elem? g.symbols sym)
        (λ s. Option.map (move_symbol sym s) (normal_sample rounds g))

  -- `make_quote` and `make_trade` behind their call of `step`.
  unfoldable pub fill_quote :
      ℕ → ℕ → SymbolState D × TickGenerator D R → QuoteMsg × TickGenerator D R
  fill_quote sym seq (s, g) =
      let w = uniform (literal 0 0) one g.rng in
      let spread_frac = add (literal 5 4) (mul w.0 (literal 15 4)) in
      let half_spread = div (mul s.price spread_frac) (literal 2 0) in
      let t = now_ns w.1 in
      let q = lognormal_pair (literal 69 1) (literal 5 1) t.1 in
      let h : MsgHeader = record {
        msg_type = msg_quote;
        seq_no = seq;
        timestamp_ns = t.0;
        symbol_id = sym;
      } in
      let p : QuotePay = record {
        bid_price = bits (sub s.price half_spread);
        bid_qty = to_u32 q.0;
        ask_price = bits (add s.price half_spread);
        ask_qty = to_u32 q.1;
      } in
      (seal_quote h p, record g { rng = q.2 })

  unfoldable pub fill_trade :
      ℕ → ℕ → SymbolState D × TickGenerator D R → TradeMsg × TickGenerator D R
  fill_trade sym seq (s, g) =
      let t = now_ns g.rng in
      let q = lognormal (literal 55 1) (literal 8 1) t.1 in
      let h : MsgHeader = record {
        msg_type = msg_trade;
        seq_no = seq;
        timestamp_ns = t.0;
        symbol_id = sym;
      } in
      let p : TradePay = record { price = bits s.price; quantity = to_u32 q.0 } in
      (seal_trade h p, record g { rng = q.1 })

  unfoldable pub make_quote : ℕ → ℕ → ℕ → TickGenerator D R → Option (QuoteMsg × TickGenerator D R)
  unfolding step fill_quote
  make_quote rounds sym seq g = Option.map (fill_quote sym seq) (step rounds sym g)

  unfoldable pub make_trade : ℕ → ℕ → ℕ → TickGenerator D R → Option (TradeMsg × TickGenerator D R)
  unfolding step fill_trade
  make_trade rounds sym seq g = Option.map (fill_trade sym seq) (step rounds sym g)

  unfoldable pub make_heartbeat : ℕ → TickGenerator D R → HeartbeatMsg × TickGenerator D R
  make_heartbeat seq g =
      let t = now_ns g.rng in
      let h : MsgHeader = record {
        msg_type = msg_heartbeat;
        seq_no = seq;
        timestamp_ns = t.0;
        symbol_id = 0;
      } in
      (seal_heartbeat h, record g { rng = t.1 })

  -- The loop of the constructor.
  unfoldable pub make_symbols : ℕ → R → List (SymbolState D) × R
  make_symbols zero rng = ([], rng)
  make_symbols (suc n) rng =
      let p = uniform (literal 100 0) (literal 5000 0) rng in
      let v = uniform (literal 1 2) (literal 6 2) p.1 in
      let r = uniform (literal 0 0) one v.1 in
      let mu =
        if lt r.0 (literal 15 2)
        then literal 5 2
        else if lt r.0 (literal 30 2)
        then negate (literal 5 2)
        else literal 0 2 in
      let s : SymbolState D = record { price = p.0; initial_price = p.0; mu = mu; sigma = v.0 } in
      let rest = make_symbols n r.1 in (s ∷ rest.0, rest.1)

  unfoldable pub init : ℕ → R → TickGenerator D R
  unfolding make_symbols
  init n seeded =
      let made = make_symbols n seeded in
      record { rng = made.1; symbols = made.0; has_spare = false; spare = literal 0 0 }

  unfoldable pub tick_source : ℕ → TickSource (TickGenerator D R)
  unfolding make_quote make_trade make_heartbeat
  tick_source rounds = record {
    make_quote = make_quote rounds;
    make_trade = make_trade rounds;
    make_heartbeat = make_heartbeat;
  }
