-- ===== src/Server/Exchange/Ticks.antt =====
-- One tick of the exchange: which message it generates, and its number.
use market_data_handle.Prelude.{
  ℕ, ◌+◌, ◌%◌, ◌≤◌, ◌<◌, ◌^◌, ◌≡◌, refl, true, false, some, List, ◌==◌, ltb, Bool-cases, inl, inr,
  ◌⊎◌, arith, u32, IsU32, u16,
}
use market_data_handle.Protocol.{Message, trade, quote, heartbeat, TradeMsg, QuoteMsg, header_of}
use market_data_handle.Protocol.Layout.{IsSealed}
use market_data_handle.Parser.Gaps.{seq_of}
use market_data_handle.Server.Exchange.{TickSource, SendResult, Exchange, tick_seq, generate}

-- A message that the generator made, sealed, with the number and the symbol that it was asked for.
pub record Made {G : Type 0} (Ready : G → Type 0) (sym seq : ℕ) (m : Message) (g : G) : Type 0 where
  pub sealed : IsSealed m
  pub numbered : seq_of m ≡ seq
  pub symbol : (header_of m).symbol_id ≡ sym
  pub ready : Ready g

-- What the exchange relies on: a generator that is ready for `symbols` symbols makes a sealed
-- message of each kind, and stays ready.
pub record TickLaws {G : Type 0} (src : TickSource G) (symbols : ℕ) (Ready : G → Type 0)
    : Type 0 where
  pub quotes :
      (sym seq : ℕ) (g : G)
      → sym < symbols
      → IsU32 seq
      → Ready g
      → (m : QuoteMsg) × (h : G) × (src.make_quote sym seq g ≡ some (m, h))
        × Made Ready sym seq (quote m) h
  pub trades :
      (sym seq : ℕ) (g : G)
      → sym < symbols
      → IsU32 seq
      → Ready g
      → (m : TradeMsg) × (h : G) × (src.make_trade sym seq g ≡ some (m, h))
        × Made Ready sym seq (trade m) h
  pub heartbeats :
      (seq : ℕ) (g : G)
      → IsU32 seq
      → Ready g
      → Made Ready 0 seq (heartbeat (src.make_heartbeat seq g).0) (src.make_heartbeat seq g).1

-- The number of a tick is the next one, or the one after it where that is a multiple of 100 and
-- faults are injected.
pub tick_seq_lem :
    {G : Type 0} (x : Exchange G)
    → x.seq_no + 1 < 2 ^ 32
    → (tick_seq x ≡ x.seq_no)
      ⊎ ((tick_seq x ≡ x.seq_no + 1) × (x.fault_injection ≡ true) × (x.seq_no % 100 ≡ 0))
unfolding tick_seq
tick_seq_lem x lt = ground arith

module _ {G N : Type 0} (src : TickSource G) (send : ℕ → List ℕ → N → SendResult × N)
    (Ready : G → Type 0) where
  -- A tick makes one sealed message, a trade for three numbers in ten and a quote for the others, of the
  -- symbol whose turn it is.
  pub generate_lem :
      (x : Exchange G)
      → TickLaws src x.symbol_count Ready
      → 0 < x.symbol_count
      → x.symbol_count ≤ 2 ^ 16
      → x.seq_no + 2 < 2 ^ 32
      → Ready x.gen
      → (m : Message) × (g : G) × (generate src send x
          ≡ some (m, record x { gen = g; seq_no = tick_seq x + 1 }))
        × Made Ready (x.seq_no % x.symbol_count) (tick_seq x) m g
  unfolding generate
  generate_lem x laws pos few room ready =
      let seq = tick_seq x in
      let small : IsU32 seq = ground (arith, tick_seq_lem x (omega arith)) in
      let next : u32 (seq + 1) ≡ seq + 1 = ground (arith, tick_seq_lem x (omega arith)) in
      let turn : ℕ = x.seq_no % x.symbol_count in
      let within : turn < x.symbol_count = grind arith in
      let sym : u16 turn ≡ turn = omega arith in
      let some_symbols : (x.symbol_count == 0) ≡ false = ground arith in
      elim (Bool-cases (ltb (seq % 10) 3)) [
        | inl is_trade ↦
            let (m, g, made, law) = laws.trades turn seq x.gen within small ready in
            (trade m, g, rw (some_symbols, is_trade, sym, made, next) refl, law)
        | inr is_quote ↦
            let (m, g, made, law) = laws.quotes turn seq x.gen within small ready in
            (quote m, g, rw (some_symbols, is_quote, sym, made, next) refl, law)
      ]
