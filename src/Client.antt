-- ===== src/Client.antt =====
-- src/client/feed_handler.cpp: the three callbacks of `main` and its receive loop, which tie the
-- parser to the cache, the latency tracker and the visualizer's message counter.
-- The callbacks do not touch the parser, so those of one `feed` are run when it has returned, in
-- their order. `clock k` is what the steady clock shows when callback number `k` runs.
pub mod Callbacks
pub mod Kernel
pub mod Socket
pub mod Session
pub mod Program
pub mod Display
pub mod Delivery
mod Examples
use mathlib.Core.Option
use market_data_handle.Prelude.{ℕ, ◌+◌, true, Option, some, List, [], ◌∷◌, u64, sub64}
use market_data_handle.Protocol.{read_trade, read_quote}
use market_data_handle.Parser.{Parser, Handlers, Call, on_trade, on_quote, on_heartbeat, feed}
use market_data_handle.Latency.{LatencyTracker, add_sample}
use market_data_handle.Cache.{SymbolCache, update_trade, update_quote}

-- What the callbacks write; `callbacks` is a record of the past that no code reads.
pub record Client : Type 0 where
  pub cache : SymbolCache
  pub lat : LatencyTracker
  pub total_messages : ℕ  -- uint64_t, of the visualizer
  pub callbacks : ℕ

abbrev pub all_set : Handlers
all_set = record { has_trade = true; has_quote = true; has_heartbeat = true }

-- `Visualizer::increment_messages(n)`
unfoldable pub increment_messages : ℕ → Client → Client
increment_messages n s = record s {
  total_messages = u64 (s.total_messages + n);
  callbacks = s.callbacks + 1;
}

-- `none` where the symbol is out of the cache's range.
unfoldable pub handle_trade : ℕ → List ℕ → Client → Option Client
unfolding increment_messages
handle_trade recv_ns bytes s =
    let msg = read_trade bytes in
    let lat = add_sample s.lat (sub64 recv_ns msg.header.timestamp_ns) in
    Option.map (λ c. increment_messages 1 (record s { cache = c; lat = lat }))
      (update_trade msg.header.symbol_id msg.payload.price msg.payload.quantity
        msg.header.timestamp_ns s.cache)

unfoldable pub handle_quote : ℕ → List ℕ → Client → Option Client
unfolding increment_messages
handle_quote recv_ns bytes s =
    let msg = read_quote bytes in
    let lat = add_sample s.lat (sub64 recv_ns msg.header.timestamp_ns) in
    Option.map (λ c. increment_messages 1 (record s { cache = c; lat = lat }))
      (update_quote msg.header.symbol_id msg.payload.bid_price msg.payload.bid_qty
        msg.payload.ask_price msg.payload.ask_qty msg.header.timestamp_ns s.cache)

unfoldable pub handle : (ℕ → ℕ) → Call → Client → Option Client
unfolding handle_trade handle_quote increment_messages
handle clock (on_trade bytes) s = handle_trade (clock s.callbacks) bytes s
handle clock (on_quote bytes) s = handle_quote (clock s.callbacks) bytes s
handle clock (on_heartbeat bytes) s = some (increment_messages 1 s)

unfoldable pub handle_all : (ℕ → ℕ) → List Call → Client → Option Client
unfolding handle
handle_all clock [] s = some s
handle_all clock (c ∷ cs) s = Option.bind (handle clock c s) (handle_all clock cs)

-- One round of the receive loop, for the bytes that `receive` returned.
unfoldable pub receive_block : (ℕ → ℕ) → Parser × Client → List ℕ → Option (Parser × Client)
unfolding handle_all
receive_block clock (p, s) xs =
    let (q, calls) = feed all_set p xs in Option.map (λ t. (q, t)) (handle_all clock calls s)

unfoldable pub receive_all : (ℕ → ℕ) → Parser × Client → List (List ℕ) → Option (Parser × Client)
unfolding receive_block
receive_all clock σ [] = some σ
receive_all clock σ (xs ∷ xss) =
    Option.bind (receive_block clock σ xs) (λ τ. receive_all clock τ xss)
