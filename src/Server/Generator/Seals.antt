-- ===== src/Server/Generator/Seals.antt =====
-- The generator as the source of ticks of the exchange.
use mathlib.Core.Option
use market_data_handle.Prelude.{
  ℕ, ◌≤◌, ◌<◌, ◌^◌, ◌≡◌, refl, ap, ◌∙◌, false, some, length, length-set, get_or, get_elem?_in,
  arith, IsU32, IsU64, Bool-cases, inl, inr,
}
use market_data_handle.Protocol.{
  MsgHeader, TradePay, QuotePay, trade, quote, heartbeat, msg_trade, msg_quote, msg_heartbeat,
  body_bytes, payload_bytes,
}
use market_data_handle.Protocol.Layout.{IsSealed, HeaderFits}
use market_data_handle.Server.Exchange.Ticks.{TickLaws}
use market_data_handle.Server.Generator.{
  Doubles, SymbolState, TickGenerator, polar_loop, keep_pair, normal_sample, move_symbol,
  fill_quote, fill_trade, step, seal_quote, seal_trade, seal_heartbeat, make_quote, make_trade,
  make_heartbeat, tick_source,
}

seal_quote-IsSealed :
    (h : MsgHeader) (p : QuotePay)
    → h.msg_type ≡ msg_quote
    → HeaderFits h
    → (IsU64 p.bid_price × IsU32 p.bid_qty × IsU64 p.ask_price × IsU32 p.ask_qty)
    → IsSealed (quote (seal_quote h p))
unfolding body_bytes payload_bytes
seal_quote-IsSealed h p typed fits pay = record {
  typed = typed;
  header_fits = fits;
  payload_fits = pay;
  sealed = refl;
}

seal_trade-IsSealed :
    (h : MsgHeader) (p : TradePay)
    → h.msg_type ≡ msg_trade
    → HeaderFits h
    → (IsU64 p.price × IsU32 p.quantity)
    → IsSealed (trade (seal_trade h p))
unfolding body_bytes payload_bytes
seal_trade-IsSealed h p typed fits pay = record {
  typed = typed;
  header_fits = fits;
  payload_fits = pay;
  sealed = refl;
}

seal_heartbeat-IsSealed :
    (h : MsgHeader)
    → h.msg_type ≡ msg_heartbeat
    → HeaderFits h
    → IsSealed (heartbeat (seal_heartbeat h))
unfolding body_bytes payload_bytes
seal_heartbeat-IsSealed h typed fits = record {
  typed = typed;
  header_fits = fits;
  payload_fits = tt;
  sealed = refl;
}

-- What the generator relies on: the types of what the conversions and the clock return, and that
-- the rejection loop keeps a round within `rounds` of them.
pub record DoubleLaws {D R : Type 0} (dbl : Doubles D R) (rounds : ℕ) : Type 0 where
  pub bits_fit : (d : D) → IsU64 (dbl.bits d)
  pub to_u32_fit : (d : D) → IsU32 (dbl.to_u32 d)
  pub now_fit : (r : R) → IsU64 (dbl.now_ns r).0
  pub kept : (r : R) → (s : D × D × D × R) × (polar_loop dbl rounds r ≡ some s)

module _ {D R : Type 0} (dbl : Doubles D R) (rounds : ℕ) (laws : DoubleLaws dbl rounds) where
  normal_sample_lem :
      (g : TickGenerator D R)
      → (z : D) × (h : TickGenerator D R) × (normal_sample dbl rounds g ≡ some (z, h))
        × (h.symbols ≡ g.symbols)
  unfolding normal_sample keep_pair
  normal_sample_lem g =
      let (r, e) = laws.kept g.rng in
      let pair : D × TickGenerator D R = keep_pair dbl r g in
      elim (Bool-cases g.has_spare) [
        | inl spare ↦ (g.spare, record g { has_spare = false }, rw spare refl, refl)
        | inr empty ↦ (pair.0, pair.1, rw (empty, e) refl, refl)
      ]

  step_lem :
      (k : ℕ) (g : TickGenerator D R) (d : SymbolState D)
      → k < length g.symbols
      → (s : SymbolState D) × (h : TickGenerator D R) × (step dbl rounds k g ≡ some (s, h))
        × (length h.symbols ≡ length g.symbols)
  unfolding step Option.bind move_symbol
  step_lem k g d lt =
      let (z, h, made, same) = normal_sample_lem g in
      let s : SymbolState D = get_or g.symbols k d in
      let moved : SymbolState D × TickGenerator D R = move_symbol dbl k s (z, h) in
      (
        moved.0,
        moved.1,
        rw (get_elem?_in g.symbols k d lt, made) refl,
        length-set h.symbols k _ ∙ ap length same,
      )

  -- The generator with `symbols` symbols serves the exchange: it makes sealed messages with the number
  -- and the symbol that it is asked for, and keeps its symbols.
  pub tick_source_laws :
      (symbols : ℕ)
      → symbols ≤ 2 ^ 16
      → TickLaws (tick_source dbl rounds) symbols (λ g. length g.symbols ≡ symbols)
  unfolding tick_source make_quote make_trade make_heartbeat fill_quote fill_trade
  tick_source_laws symbols few = record {
    quotes = λ k seq g lt small ready.
        let any : SymbolState D = record {
          price = dbl.literal 0 0;
          initial_price = dbl.literal 0 0;
          mu = dbl.literal 0 0;
          sigma = dbl.literal 0 0;
        } in
        let (s, h, made, same) = step_lem k g any (omega arith) in
        let out = fill_quote dbl k seq (s, h) in
        (
          out.0,
          out.1,
          rw made refl,
          record {
            sealed =
                seal_quote-IsSealed _ _ refl (omega arith, small, laws.now_fit _, omega arith)
                  (laws.bits_fit _, laws.to_u32_fit _, laws.bits_fit _, laws.to_u32_fit _);
            numbered = refl;
            symbol = refl;
            ready = same ∙ ready;
          },
        );
    trades = λ k seq g lt small ready.
        let any : SymbolState D = record {
          price = dbl.literal 0 0;
          initial_price = dbl.literal 0 0;
          mu = dbl.literal 0 0;
          sigma = dbl.literal 0 0;
        } in
        let (s, h, made, same) = step_lem k g any (omega arith) in
        let out = fill_trade dbl k seq (s, h) in
        (
          out.0,
          out.1,
          rw made refl,
          record {
            sealed =
                seal_trade-IsSealed _ _ refl (omega arith, small, laws.now_fit _, omega arith)
                  (laws.bits_fit _, laws.to_u32_fit _);
            numbered = refl;
            symbol = refl;
            ready = same ∙ ready;
          },
        );
    heartbeats = λ seq g small ready. record {
      sealed = seal_heartbeat-IsSealed _ refl (omega arith, small, laws.now_fit _, omega arith);
      numbered = refl;
      symbol = refl;
      ready = ready;
    };
  }
