-- ===== src/System.antt =====
-- The two programs together: what src/server/exchange_simulator.cpp generates, as it stands in the
-- cache, the tracker and the counters of src/client/feed_handler.cpp.
use market_data_handle.Prelude.{
  member, ℕ, suc, ◌+◌, ◌≤◌, ◌<◌, ◌≡◌, refl, sym, ap, ◌∙◌, true, some, List, [], ◌∷◌, ◌++◌, length,
  map, concat, All, arith, u64, IsU64,
}
use market_data_handle.Protocol.{
  Message, trade, quote, heartbeat, header_of, message_bytes, max_msg_size,
}
use market_data_handle.Parser.{Parser, init, parse_buf_size, zero_stats}
use market_data_handle.Parser.Stream.{feed_all}
use market_data_handle.Parser.Frames.{feed_all-messages}
use market_data_handle.Latency.Samples.{add_all}
use market_data_handle.Cache.{max_symbols, MarketState, get_snapshot}
use market_data_handle.Cache.Updates.{state_at, IsReady}
use market_data_handle.Cache.History.{after_all, InRange}
use market_data_handle.Client.{Client, all_set, receive_all}
use market_data_handle.Client.Callbacks.{events_of, latencies_of}
use market_data_handle.Client.Delivery.{receive_all-messages}
use market_data_handle.Server.Exchange.{TickSource, SendResult, accepted, Exchange, tick_seq}
use market_data_handle.Server.Exchange.Send.{Effect}
use market_data_handle.Server.Exchange.Ticking.{Able, generate_ticks, generate_ticks-Ticked}
use market_data_handle.Server.Exchange.EndToEnd.{feed_all_counts}

-- Messages of symbols below `n` make events below `n`.
events_of-InRange :
    (n : ℕ) (ms : List Message)
    → n ≤ max_symbols
    → All (λ m. (header_of m).symbol_id < n) ms
    → InRange (events_of ms)
events_of-InRange n [] few listed = tt
events_of-InRange n (trade m ∷ ms) few (lt, listed) =
    (omega arith, events_of-InRange n ms few listed)
events_of-InRange n (quote m ∷ ms) few (lt, listed) =
    (omega arith, events_of-InRange n ms few listed)
events_of-InRange n (heartbeat m ∷ ms) few (lt, listed) = events_of-InRange n ms few listed

module _ {G N : Type 0} (src : TickSource G) (send : ℕ → List ℕ → N → SendResult × N)
    (log : N → ℕ → List ℕ) (Ready : G → Type 0)
    (network : (fd b : ℕ) (bs : List ℕ) (net : N)
      → let (r, after) = send fd (b ∷ bs) net in Effect fd (b ∷ bs) (log net) (log after) r)
    (willing : (fd b : ℕ) (bs : List ℕ) (net : N)
      → (count : ℕ) × ((send fd (b ∷ bs) net).0 ≡ accepted count))
    (clock : ℕ → ℕ) where
  -- An exchange that can make `k + 1` ticks of at most MAX_SYMBOLS symbols, over a network that
  -- takes all that is sent, and a client with a fresh parser and a cache that nobody is writing to.
  -- The ticks run through; a client's log gains the bytes of `k + 1` messages; and the client that
  -- receives them in blocks of a size that fits, cut in any way, gets through without leaving its
  -- cache. Then a snapshot of any symbol has the fields that the messages on this symbol make of
  -- the old ones, the tracker has recorded the latency of each trade and quote, the message counter
  -- has grown by `k + 1` modulo 2^64, no checksum was bad, nothing is left in the parser, and its
  -- gaps are the numbers that the exchange skipped after its first.
  pub generate_ticks-receive_all :
      (k : ℕ) (x : Exchange G) (net : N) (fd : ℕ) (cut : List ℕ → List (List ℕ)) (s : Client)
      (rounds j : ℕ)
      → Able src Ready (suc k) x
      → 0 < x.seq_no
      → x.symbol_count ≤ max_symbols
      → member fd x.clients ≡ true
      → ((bs : List ℕ) → All (λ c. length c + max_msg_size ≤ parse_buf_size + 1) (cut bs))
      → ((bs : List ℕ) → concat (cut bs) ≡ bs)
      → IsReady s.cache
      → IsU64 s.total_messages
      → j < max_symbols
      → (y : Exchange G) × (after : N) × (ms : List Message) × (p : Parser) × (t : Client)
        × (st : MarketState) × (generate_ticks src send (suc k) (x, net) ≡ some (y, after))
        × (length ms ≡ suc k)
        × (log after fd ≡ log net fd ++ concat (map message_bytes ms))
        × (receive_all clock (init, s) (cut (concat (map message_bytes ms))) ≡ some (p, t))
        × (get_snapshot (suc rounds) t.cache j ≡ some st)
        × (st.fields ≡ after_all j (events_of ms) (state_at s.cache j).fields)
        × (t.lat ≡ add_all s.lat (latencies_of clock s.callbacks ms))
        × (t.total_messages ≡ u64 (s.total_messages + suc k))
        × (p.buf ≡ [])
        × (p.stats.bad_checksums ≡ 0)
        × (p.stats.seq_gaps + tick_seq x + suc k ≡ y.seq_no)
  generate_ticks-receive_all k x net fd cut s rounds j able pos few here fits same ready small lt =
      let run = generate_ticks-Ticked src send log Ready network willing (suc k) x net able in
      let stream = concat (map message_bytes run.messages) in
      let (p, t, st, got, parsed, shown, fields, lat, total) =
        receive_all-messages clock run.messages s (cut stream) rounds j run.sealed
          (events_of-InRange x.symbol_count run.messages few run.listed) ready small (fits stream)
          (same stream) lt in
      let same_parser : p ≡ (feed_all all_set init (cut stream)).0 =
        parsed
        ∙ sym (
            ap (λ r. r.0)
              (feed_all-messages all_set run.messages (cut stream) run.sealed (fits stream)
                (same stream))) in
      let (held, all_there, bad, gaps) =
        feed_all_counts all_set run.messages (cut stream) k (tick_seq x) run.final.seq_no run.count
          (omega (arith, able.room)) run.sealed (run.ascending 0 pos) (run.first k refl)
          (run.last zero_stats (λ e. absurd (omega arith))) (fits stream) (same stream) in
      (
        run.final,
        run.after,
        run.messages,
        p,
        t,
        st,
        run.ran,
        run.count,
        run.logged fd here,
        got,
        shown,
        fields,
        lat,
        total ∙ ap (λ n. u64 (s.total_messages + n)) run.count,
        ap (λ (q : Parser). q.buf) same_parser ∙ held,
        ap (λ (q : Parser). q.stats.bad_checksums) same_parser ∙ bad,
        ap (λ (q : Parser). q.stats.seq_gaps + tick_seq x + suc k) same_parser ∙ gaps,
      )
