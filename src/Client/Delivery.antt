-- ===== src/Client/Delivery.antt =====
-- What the client has stored once the stream of some messages is received.
use market_data_handle.Prelude.{
  ℕ, suc, ◌+◌, ◌≤◌, ◌<◌, ◌≡◌, ◌≢◌, refl, ◌∙◌, none, some, List, [], ◌∷◌, map, length, concat, All,
  arith, u64, IsU64,
}
use market_data_handle.Protocol.{Message, header_of, message_bytes, msg_heartbeat, max_msg_size}
use market_data_handle.Protocol.Layout.{IsSealed, kind, length-message_bytes, msg_total_size-le}
use market_data_handle.Parser.{Parser, init, zero_stats, parse_buf_size}
use market_data_handle.Parser.Frames.{deliver_all, accept_all, feed_all-messages}
use market_data_handle.Latency.Samples.{add_all}
use market_data_handle.Cache.{max_symbols, MarketState, get_snapshot}
use market_data_handle.Cache.Updates.{state_at, IsReady, get_snapshot_ready}
use market_data_handle.Cache.History.{run_updates, after_all, InRange, run_updates-Shown}
use market_data_handle.Client.{Client, all_set, handle_all, receive_all}
use market_data_handle.Client.Callbacks.{
  events_of, latencies_of, delivered, receive_all-feed_all, handle_all-deliver_all, events_out,
  counted_lem,
}

module _ (clock : ℕ → ℕ) where
  -- A client with a fresh parser and a cache that nobody is writing to receives the stream of some
  -- sealed messages, whose symbols are all in range, in any blocks of a size that fits. It gets
  -- through without leaving the array; then each symbol's snapshot has the fields that this
  -- symbol's trades and quotes alone, in their order, make of the old ones; the latency tracker
  -- has recorded the time from stamp to callback of every trade and quote; and the message counter
  -- has grown by the number of messages, modulo 2^64.
  pub receive_all-messages :
      (ms : List Message) (s : Client) (chunks : List (List ℕ)) (rounds j : ℕ)
      → All IsSealed ms
      → InRange (events_of ms)
      → IsReady s.cache
      → IsU64 s.total_messages
      → All (λ c. length c + max_msg_size ≤ parse_buf_size + 1) chunks
      → concat chunks ≡ concat (map message_bytes ms)
      → j < max_symbols
      → (p : Parser) × (t : Client) × (st : MarketState) × (receive_all clock (init, s) chunks
          ≡ some (p, t))
        × (p ≡ record { buf = []; stats = accept_all zero_stats ms })
        × (get_snapshot (suc rounds) t.cache j ≡ some st)
        × (st.fields ≡ after_all j (events_of ms) (state_at s.cache j).fields)
        × (t.lat ≡ add_all s.lat (latencies_of clock s.callbacks ms))
        × (t.total_messages ≡ u64 (s.total_messages + length ms))
  receive_all-messages ms s chunks rounds j sealed within ready small fits same lt =
      let shown = run_updates-Shown (events_of ms) s.cache ready within in
      let fed = feed_all-messages all_set ms chunks sealed fits same in
      let end : Client = delivered clock s ms shown.final in
      let ran : handle_all clock (deliver_all all_set ms) s ≡ some end =
        handle_all-deliver_all clock ms s sealed ∙ rw shown.ran refl in
      (
        record { buf = []; stats = accept_all zero_stats ms },
        end,
        state_at shown.final j,
        receive_all-feed_all clock chunks init s ∙ rw (fed, ran) refl,
        refl,
        get_snapshot_ready rounds shown.final j shown.ready lt,
        shown.fields j,
        refl,
        counted_lem clock s.total_messages ms small,
      )

  -- A sealed trade or quote whose symbol is `MAX_SYMBOLS` or more, as the first message of a fresh
  -- parser, makes the client leave the cache's array: nothing on the way checks the symbol.
  pub receive_all_out_of_range :
      (m : Message) (s : Client)
      → IsSealed m
      → kind m ≢ msg_heartbeat
      → length s.cache ≡ max_symbols
      → max_symbols ≤ (header_of m).symbol_id
      → receive_all clock (init, s) (message_bytes m ∷ []) ≡ none
  receive_all_out_of_range m s sealed stored len out =
      let fits : length (message_bytes m) + max_msg_size ≤ parse_buf_size + 1 =
        omega (arith, length-message_bytes m, msg_total_size-le (kind m)) in
      let fed =
        feed_all-messages all_set (m ∷ []) (message_bytes m ∷ []) (sealed, tt) (fits, tt) refl in
      let lost : run_updates (events_of (m ∷ [])) s.cache ≡ none =
        events_out clock m s.cache stored len out in
      receive_all-feed_all clock (message_bytes m ∷ []) init s
      ∙ rw (fed, handle_all-deliver_all clock (m ∷ []) s (sealed, tt), lost) refl
