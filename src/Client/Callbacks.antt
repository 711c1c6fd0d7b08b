-- ===== src/Client/Callbacks.antt =====
-- The callbacks of the client against the updates and latencies that the messages stand for.
use mathlib.Core.Option
use market_data_handle.Prelude.{
  ℕ, ◌+◌, ◌≤◌, ◌≡◌, ◌≢◌, refl, sym, ap, ◌∙◌, none, List, [], ◌∷◌, ◌++◌, length, All, arith, u64,
  sub64, IsU64, IsU32, append-nil, Option-cases, inl, inr,
}
use market_data_handle.Protocol.{
  Message, trade, quote, heartbeat, header_of, checksum_of, body_bytes, message_bytes,
  msg_heartbeat, TradeMsg, QuoteMsg, read_trade, read_quote,
}
use market_data_handle.Protocol.Layout.{
  IsSealed, kind, read_trade-message_bytes, read_quote-message_bytes,
}
use market_data_handle.Protocol.Checksum.{compute_checksum-lt}
use market_data_handle.Parser.{Parser, Call, feed}
use market_data_handle.Parser.Stream.{feed_all}
use market_data_handle.Parser.Frames.{deliver, deliver_all}
use market_data_handle.Latency.{LatencyTracker}
use market_data_handle.Latency.Samples.{add_all}
use market_data_handle.Cache.{SymbolCache, max_symbols, update_trade, update_quote}
use market_data_handle.Cache.Seqlock.{Update}
use market_data_handle.Cache.Updates.{run_update, run_update_out}
use market_data_handle.Cache.History.{Event, run_updates}
use market_data_handle.Client.{
  Client, all_set, handle, handle_all, handle_trade, handle_quote, increment_messages,
  receive_block, receive_all,
}

module _ (clock : ℕ → ℕ) where
  handle_all-append :
      (xs ys : List Call) (s : Client)
      → handle_all clock (xs ++ ys) s ≡ Option.bind (handle_all clock xs s) (handle_all clock ys)
  unfolding handle_all Option.bind
  handle_all-append [] ys s = refl
  handle_all-append (x ∷ xs) ys s = elim (Option-cases (handle clock x s)) [
    | inl e ↦ rw e refl
    | inr (t, e) ↦ rw e (handle_all-append xs ys t)
  ]

  -- The blocks only matter for the parser: the callbacks run as on the list of all calls.
  pub receive_all-feed_all :
      (chunks : List (List ℕ)) (p : Parser) (s : Client)
      → receive_all clock (p, s) chunks
        ≡ Option.map
            (λ t. ((feed_all all_set p chunks).0, t))
            (handle_all clock (feed_all all_set p chunks).1 s)
  unfolding receive_all receive_block feed_all Option.bind
  receive_all-feed_all [] p s = unfold handle_all in refl
  receive_all-feed_all (c ∷ cs) p s =
      let q : Parser = (feed all_set p c).0 in
      let calls : List Call = (feed all_set p c).1 in
      let more : List Call = (feed_all all_set q cs).1 in
      elim (Option-cases (handle_all clock calls s)) [
        | inl e ↦ rw (handle_all-append calls more s, e) refl
        | inr (t, e) ↦ rw (handle_all-append calls more s, e) (receive_all-feed_all cs q t)
      ]

-- The updates that the messages stand for.
abbrev pub events_of : List Message → List Event
events_of [] = []
events_of (trade m ∷ ms) =
    record {
      symbol = m.header.symbol_id;
      update = Update.trade m.payload.price m.payload.quantity m.header.timestamp_ns;
    }
    ∷ events_of ms
events_of (quote m ∷ ms) =
    record {
      symbol = m.header.symbol_id;
      update =
          Update.quote m.payload.bid_price m.payload.bid_qty m.payload.ask_price m.payload.ask_qty
            m.header.timestamp_ns;
    }
    ∷ events_of ms
events_of (heartbeat m ∷ ms) = events_of ms

-- The latencies of the trades and quotes, when the first callback is number `k`.
abbrev pub latencies_of : (ℕ → ℕ) → ℕ → List Message → List ℕ
latencies_of clock k [] = []
latencies_of clock k (trade m ∷ ms) =
    sub64 (clock k) m.header.timestamp_ns ∷ latencies_of clock (k + 1) ms
latencies_of clock k (quote m ∷ ms) =
    sub64 (clock k) m.header.timestamp_ns ∷ latencies_of clock (k + 1) ms
latencies_of clock k (heartbeat m ∷ ms) = latencies_of clock (k + 1) ms

-- One increment of the visualizer's counter for each message.
abbrev pub counted : ℕ → List Message → ℕ
counted n [] = n
counted n (m ∷ ms) = counted (u64 (n + 1)) ms

abbrev pub advance : ℕ → List Message → ℕ
advance k [] = k
advance k (m ∷ ms) = advance (k + 1) ms

abbrev pub delivered : (ℕ → ℕ) → Client → List Message → SymbolCache → Client
delivered clock s ms d = record {
  cache = d;
  lat = add_all s.lat (latencies_of clock s.callbacks ms);
  total_messages = counted s.total_messages ms;
  callbacks = advance s.callbacks ms;
}

abbrev next_client : LatencyTracker → SymbolCache → Client → Client
next_client l c s = increment_messages 1 (record s { cache = c; lat = l })

checksum_fits : (m : Message) → IsSealed m → IsU32 (checksum_of m)
checksum_fits m sealed = rw sealed.sealed (compute_checksum-lt (body_bytes m))

read_trade_sealed : (m : TradeMsg) → IsSealed (trade m) → read_trade (message_bytes (trade m)) ≡ m
read_trade_sealed m sealed =
    ap read_trade (sym (append-nil (message_bytes (trade m))))
    ∙ read_trade-message_bytes m [] sealed.header_fits sealed.payload_fits
        (checksum_fits (trade m) sealed)

read_quote_sealed : (m : QuoteMsg) → IsSealed (quote m) → read_quote (message_bytes (quote m)) ≡ m
read_quote_sealed m sealed =
    ap read_quote (sym (append-nil (message_bytes (quote m))))
    ∙ read_quote-message_bytes m [] sealed.header_fits sealed.payload_fits
        (checksum_fits (quote m) sealed)

module _ (clock : ℕ → ℕ) where
  -- The callback of one sealed message makes the update that the message stands for.
  handle_all-deliver :
      (m : Message) (s : Client)
      → IsSealed m
      → handle_all clock (deliver all_set m) s
        ≡ Option.map (delivered clock s (m ∷ [])) (run_updates (events_of (m ∷ [])) s.cache)
  unfolding handle_all handle handle_trade handle_quote deliver run_updates run_update Option.bind
      increment_messages add_all
  handle_all-deliver (trade m) s sealed =
      rw (read_trade_sealed m sealed)
        (elim (Option-cases (
          update_trade m.header.symbol_id m.payload.price m.payload.quantity m.header.timestamp_ns
            s.cache)) [ inl e ↦ rw e refl | inr (c, e) ↦ rw e refl ])
  handle_all-deliver (quote m) s sealed =
      rw (read_quote_sealed m sealed)
        (elim (Option-cases (
          update_quote m.header.symbol_id m.payload.bid_price m.payload.bid_qty m.payload.ask_price
            m.payload.ask_qty m.header.timestamp_ns s.cache)) [
              | inl e ↦ rw e refl
              | inr (c, e) ↦ rw e refl
            ])
  handle_all-deliver (heartbeat m) s sealed = refl

  delivered_cons :
      (m : Message) (ms : List Message) (s : Client) (c d : SymbolCache)
      → delivered clock (delivered clock s (m ∷ []) c) ms d ≡ delivered clock s (m ∷ ms) d
  unfolding add_all
  delivered_cons (trade m) ms s c d = refl
  delivered_cons (quote m) ms s c d = refl
  delivered_cons (heartbeat m) ms s c d = refl

  events_cons :
      (m : Message) (ms : List Message) (c : SymbolCache)
      → run_updates (events_of (m ∷ ms)) c
        ≡ Option.bind (run_updates (events_of (m ∷ [])) c) (run_updates (events_of ms))
  unfolding run_updates Option.bind
  events_cons (trade m) ms c =
      elim (Option-cases (
        run_update (Update.trade m.payload.price m.payload.quantity m.header.timestamp_ns)
          m.header.symbol_id c)) [ inl e ↦ rw e refl | inr (d, e) ↦ rw e refl ]
  events_cons (quote m) ms c =
      elim (Option-cases (
        run_update
          (Update.quote m.payload.bid_price m.payload.bid_qty m.payload.ask_price m.payload.ask_qty
            m.header.timestamp_ns)
          m.header.symbol_id c)) [ inl e ↦ rw e refl | inr (d, e) ↦ rw e refl ]
  events_cons (heartbeat m) ms c = refl

  pub events_out :
      (m : Message) (c : SymbolCache)
      → kind m ≢ msg_heartbeat
      → length c ≡ max_symbols
      → max_symbols ≤ (header_of m).symbol_id
      → run_updates (events_of (m ∷ [])) c ≡ none
  unfolding run_updates Option.bind
  events_out (trade m) c stored len out =
      rw (run_update_out _ m.header.symbol_id c 0 len out).0 refl
  events_out (quote m) c stored len out =
      rw (run_update_out _ m.header.symbol_id c 0 len out).0 refl
  events_out (heartbeat m) c stored len out = absurd (stored refl)

  -- The callbacks of sealed messages, in order, make the updates that the messages stand for and
  -- record their latencies; they leave the array exactly if one of the updates does.
  pub handle_all-deliver_all :
      (ms : List Message) (s : Client)
      → All IsSealed ms
      → handle_all clock (deliver_all all_set ms) s
        ≡ Option.map (delivered clock s ms) (run_updates (events_of ms) s.cache)
  unfolding deliver_all Option.bind
  handle_all-deliver_all [] s sealed = unfold handle_all run_updates add_all in refl
  handle_all-deliver_all (m ∷ ms) s (sealed, more) =
      let calls = deliver_all all_set ms in
      elim (Option-cases (run_updates (events_of (m ∷ [])) s.cache)) [
        | inl e ↦
            rw
              (
                handle_all-append clock (deliver all_set m) calls s,
                handle_all-deliver m s sealed,
                events_cons m ms s.cache,
                e,
              )
              refl
        | inr (c, e) ↦
            rw
              (
                handle_all-append clock (deliver all_set m) calls s,
                handle_all-deliver m s sealed,
                events_cons m ms s.cache,
                e,
              )
              (handle_all-deliver_all ms (delivered clock s (m ∷ []) c) more ∙ (λ i.
                Option.map (λ d. delivered_cons m ms s c d i) (run_updates (events_of ms) c)))
      ]

  pub counted_lem : (n : ℕ) (ms : List Message) → IsU64 n → counted n ms ≡ u64 (n + length ms)
  counted_lem n [] h = omega arith
  counted_lem n (m ∷ ms) h = omega (arith, counted_lem (u64 (n + 1)) ms (omega arith))
