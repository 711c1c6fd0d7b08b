-- ===== src/Client/Examples.antt =====
-- The client of src/client/feed_handler.cpp on a quote, a trade and a heartbeat.
use market_data_handle.Prelude.{
  ℕ, ◌+◌, ◌≤◌, ◌<◌, ◌≡◌, ◌^◌, ◌*◌, refl, none, some, List, [], ◌∷◌, map, length, take, drop, concat,
  All, arith, u64, length-replicate,
}
use market_data_handle.Protocol.{
  Message, trade, quote, TradePay, QuotePay, MsgHeader, message_bytes, body_bytes, header_bytes,
  payload_bytes, trade_pay_bytes, quote_pay_bytes, compute_checksum, max_msg_size,
}
use market_data_handle.Protocol.Layout.{IsSealed}
use market_data_handle.Parser
use market_data_handle.Parser.{Parser, zero_stats, parse_buf_size}
use market_data_handle.Parser.Frames.{accept_all}
use market_data_handle.Latency
use market_data_handle.Latency.Samples.{add_all}
use market_data_handle.Cache.{MarketState, init, max_symbols, fresh_state, get_snapshot}
use market_data_handle.Cache.Updates.{state_at}
use market_data_handle.Cache.History.{after_all, init-IsReady}
use market_data_handle.Client.{Client, receive_all}
use market_data_handle.Client.Callbacks.{events_of, latencies_of}
use market_data_handle.Client.Delivery.{receive_all-messages, receive_all_out_of_range}

abbrev header : ℕ → ℕ → ℕ → MsgHeader
header t n sym = record { msg_type = t; seq_no = n; timestamp_ns = 1000; symbol_id = sym }

abbrev quote_pay : QuotePay
quote_pay = record { bid_price = 0x4059; bid_qty = 100; ask_price = 0x405a; ask_qty = 300 }

abbrev trade_pay : TradePay
trade_pay = record { price = 0x40ab; quantity = 250 }

abbrev quote_7 : Message
quote_7 = quote (record {
  header = header 2 1 7;
  payload = quote_pay;
  checksum =
      compute_checksum
        (body_bytes (quote (record { header = header 2 1 7; payload = quote_pay; checksum = 0 })));
})

abbrev trade_at : ℕ → Message
trade_at sym = trade (record {
  header = header 1 2 sym;
  payload = trade_pay;
  checksum =
      compute_checksum (
        body_bytes (trade (record { header = header 1 2 sym; payload = trade_pay; checksum = 0 })));
})

quote_7-IsSealed : IsSealed quote_7
unfolding body_bytes payload_bytes
quote_7-IsSealed = record {
  typed = refl;
  header_fits = omega arith;
  payload_fits = omega arith;
  sealed = refl;
}

trade_at-IsSealed : (sym : ℕ) → sym < 2 ^ 16 → IsSealed (trade_at sym)
unfolding body_bytes payload_bytes
trade_at-IsSealed sym lt = record {
  typed = refl;
  header_fits = omega arith;
  payload_fits = omega arith;
  sealed = refl;
}

abbrev messages : List Message
messages = quote_7 ∷ trade_at 7 ∷ []

abbrev stream : List ℕ
stream = concat (map message_bytes messages)

abbrev blocks : List (List ℕ)
blocks = take 50 stream ∷ drop 50 stream ∷ []

abbrev fresh_client : Client
fresh_client = record { cache = init; lat = Latency.init; total_messages = 0; callbacks = 0 }

abbrev clock : ℕ → ℕ
clock k = 1000 + 100 * k

blocks_fit : All (λ c. length c + max_msg_size ≤ parse_buf_size + 1) blocks
unfolding message_bytes body_bytes payload_bytes header_bytes compute_checksum trade_pay_bytes
    quote_pay_bytes
blocks_fit = omega arith

blocks_same : concat blocks ≡ stream
unfolding message_bytes body_bytes payload_bytes header_bytes compute_checksum trade_pay_bytes
    quote_pay_bytes
blocks_same = refl

receive_all-messages_example :
    (p : Parser) × (t : Client) × (st : MarketState) × (receive_all clock
        (Parser.init, fresh_client)
        blocks
      ≡ some (p, t))
    × (p ≡ record { buf = []; stats = accept_all zero_stats messages })
    × (get_snapshot 1 t.cache 7 ≡ some st)
    × (st.fields ≡ after_all 7 (events_of messages) (state_at init 7).fields)
    × (t.lat ≡ add_all Latency.init (latencies_of clock 0 messages))
    × (t.total_messages ≡ u64 (0 + 2))
receive_all-messages_example =
    receive_all-messages clock messages fresh_client blocks 0 7
      (quote_7-IsSealed, (trade_at-IsSealed 7 (omega arith), tt)) (omega arith) init-IsReady
      (omega arith) blocks_fit blocks_same (omega arith)

receive_all_out_of_range_example :
    receive_all clock (Parser.init, fresh_client) (message_bytes (trade_at 500) ∷ []) ≡ none
receive_all_out_of_range_example =
    receive_all_out_of_range clock (trade_at 500) fresh_client (trade_at-IsSealed 500 (omega arith))
      (omega arith) (length-replicate max_symbols fresh_state) (omega arith)
