-- ===== src/Server/Exchange/Examples.antt =====
-- The exchange with a generator over simple numbers, and a network that takes 16 bytes at a time.
use market_data_handle.Prelude.{
  ℕ, suc, ◌+◌, ◌≤◌, ◌≡◌, ◌⊎◌, refl, Bool, true, false, none, some, List, [], ◌∷◌, ◌++◌, ◌==◌,
  if◌then◌else◌, min, ltb, length, take, map, concat, u64, ◌*◌, All, arith, ap,
}
use mathlib.Core.Option
use market_data_handle.Protocol.{
  Message, max_msg_size, message_bytes, body_bytes, header_bytes, payload_bytes, quote_pay_bytes,
  trade_pay_bytes,
}
use market_data_handle.Latency
use market_data_handle.Latency.Samples.{add_all}
use market_data_handle.Cache
use market_data_handle.Cache.{max_symbols, MarketState, get_snapshot}
use market_data_handle.Cache.Updates.{state_at}
use market_data_handle.Cache.History.{after_all, init-IsReady}
use market_data_handle.Client.{Client, receive_all}
use market_data_handle.Client.Callbacks.{events_of, latencies_of}
use market_data_handle.System.{generate_ticks-receive_all}
use market_data_handle.Parser.{Parser, init, parse_buf_size}
use market_data_handle.Parser.Stream.{feed_all}
use market_data_handle.Server.Exchange.{
  SendResult, accepted, Exchange, incoming, hangup, Round, tick_seq, broadcast_message, run_all,
}
use market_data_handle.Server.Exchange.Runs.{run_all-IsServed}
use market_data_handle.Server.Exchange.Send.{Effect}
use market_data_handle.Server.Exchange.Delivery.{IsServed}
use market_data_handle.Server.Exchange.Ticking.{Able, generate_ticks}
use market_data_handle.Server.Exchange.EndToEnd.{generate_ticks-feed_all}
use market_data_handle.Server.Generator.{
  Doubles, TickGenerator, SymbolState, polar_loop, tick_source,
}
use market_data_handle.Server.Generator.Seals.{DoubleLaws, tick_source_laws}

-- Numbers in place of doubles; the state of the engine is a counter, which is the clock too.
abbrev pub plain : Doubles ℕ ℕ
plain = record {
  literal = λ n k. n;
  negate = λ d. d;
  add = λ a b. a + b;
  sub = λ a b. a;
  mul = λ a b. a;
  div = λ a b. a;
  sqrt = λ a. a;
  log = λ a. a;
  exp = λ a. a;
  lt = ltb;
  ge = λ a b. false;
  eq = λ a b. false;
  bits = λ d. min d 1000;
  to_u32 = λ d. min d 1000;
  uniform = λ a b r. (a + b, suc r);
  lognormal = λ a b r. (a, suc r);
  lognormal_pair = λ a b r. (a, b, suc r);
  now_ns = λ r. (min r 1000, suc r);
}

pub plain_laws : DoubleLaws plain 1
unfolding polar_loop
plain_laws = record {
  bits_fit = λ d. omega arith;
  to_u32_fit = λ d. omega arith;
  now_fit = λ r. omega arith;
  kept = λ r. (_, refl);
}

abbrev one_symbol : List (SymbolState ℕ)
one_symbol = record { price = 100; initial_price = 100; mu = 0; sigma = 1 } ∷ []

-- At sequence number 99, with faults: the second tick skips number 100.
abbrev exchange : Exchange (TickGenerator ℕ ℕ)
exchange = record {
  symbol_count = 1;
  gen = record { rng = 0; symbols = one_symbol; has_spare = false; spare = 0 };
  clients = 5 ∷ 8 ∷ [];
  slow_clients = [];
  fault_injection = true;
  seq_no = 99;
}

abbrev pub send : ℕ → List ℕ → (ℕ → List ℕ) → SendResult × (ℕ → List ℕ)
send fd bs log = (
  accepted (min 16 (length bs)),
  λ other. if fd == other then log other ++ take (min 16 (length bs)) bs else log other,
)

send-Effect :
    (fd b : ℕ) (bs : List ℕ) (log : ℕ → List ℕ)
    → let (r, after) = send fd (b ∷ bs) log in Effect fd (b ∷ bs) log after r
send-Effect fd b bs log = (omega arith, omega arith, ground arith, λ other ne. ground arith)

abbrev bytewise : List ℕ → List (List ℕ)
bytewise [] = []
bytewise (b ∷ bs) = (b ∷ []) ∷ bytewise bs

bytewise_fits :
    (bs : List ℕ) → All (λ c. length c + max_msg_size ≤ parse_buf_size + 1) (bytewise bs)
bytewise_fits [] = tt
bytewise_fits (b ∷ bs) = (omega arith, bytewise_fits bs)

concat-bytewise : (bs : List ℕ) → concat (bytewise bs) ≡ bs
concat-bytewise [] = refl
concat-bytewise (b ∷ bs) = ap (λ t. b ∷ t) (concat-bytewise bs)

exchange-Able : Able (tick_source plain 1) (λ g. length g.symbols ≡ 1) 2 exchange
exchange-Able = record {
  laws = tick_source_laws plain 1 plain_laws 1 (omega arith);
  ready = refl;
  some_symbols = omega arith;
  few_symbols = omega arith;
  no_twins = (refl, (refl, tt));
  some_clients = refl;
  room = omega arith;
}

generate_ticks-feed_all_example :
    (y : Exchange (TickGenerator ℕ ℕ)) × (after : ℕ → List ℕ) × (stream : List ℕ) × (generate_ticks
        (tick_source plain 1)
        send
        2
        (exchange, λ fd. [])
      ≡ some (y, after))
    × (after 8 ≡ stream)
    × let p =
        (feed_all
          (record { has_trade = true; has_quote = true; has_heartbeat = true })
          init
          (bytewise stream)).0 in
      (p.buf ≡ [])
      × (p.stats.total_parsed ≡ 2)
      × (p.stats.bad_checksums ≡ 0)
      × (p.stats.seq_gaps + tick_seq exchange + 2 ≡ y.seq_no)
      × ((◌≡◌ {A = Bool} true true) ⊎ (p.stats.seq_gaps ≡ 0))
generate_ticks-feed_all_example =
    generate_ticks-feed_all (tick_source plain 1) send (λ log. log) (λ g. length g.symbols ≡ 1)
      send-Effect (λ fd b bs log. (_, refl))
      (record { has_trade = true; has_quote = true; has_heartbeat = true }) 1 exchange (λ fd. []) 8
      bytewise exchange-Able (omega arith) refl bytewise_fits concat-bytewise

abbrev fresh_client : Client
fresh_client = record { cache = Cache.init; lat = Latency.init; total_messages = 0; callbacks = 0 }

abbrev clock : ℕ → ℕ
clock k = 5000 + 100 * k

generate_ticks-receive_all_example :
    (y : Exchange (TickGenerator ℕ ℕ)) × (after : ℕ → List ℕ) × (ms : List Message) × (p : Parser)
    × (t : Client) × (st : MarketState) × (generate_ticks
          (tick_source plain 1)
          send
          2
          (exchange, λ fd. [])
        ≡ some (y, after))
    × (length ms ≡ 2)
    × (after 8 ≡ concat (map message_bytes ms))
    × (receive_all clock (init, fresh_client) (bytewise (concat (map message_bytes ms)))
        ≡ some (p, t))
    × (get_snapshot 1 t.cache 0 ≡ some st)
    × (st.fields ≡ after_all 0 (events_of ms) (state_at fresh_client.cache 0).fields)
    × (t.lat ≡ add_all fresh_client.lat (latencies_of clock 0 ms))
    × (t.total_messages ≡ u64 (0 + 2))
    × (p.buf ≡ [])
    × (p.stats.bad_checksums ≡ 0)
    × (p.stats.seq_gaps + tick_seq exchange + 2 ≡ y.seq_no)
generate_ticks-receive_all_example =
    generate_ticks-receive_all (tick_source plain 1) send (λ log. log) (λ g. length g.symbols ≡ 1)
      send-Effect (λ fd b bs log. (_, refl)) clock 1 exchange (λ fd. []) 8 bytewise fresh_client 0 0
      exchange-Able (omega arith) (omega arith) refl bytewise_fits concat-bytewise init-IsReady
      (omega arith) (omega arith)

-- Two clients come and get a tick; one goes, the other gets another tick and a heartbeat.
abbrev pub rounds : List Round
rounds =
    (record {
      events = incoming (some 5) ∷ incoming (some 8) ∷ [];
      target_ticks = 1;
      second_over = false;
    })
    ∷ (record { events = hangup 5 ∷ []; target_ticks = 2; second_over = true })
    ∷ []

abbrev nobody_yet : Exchange (TickGenerator ℕ ℕ)
nobody_yet = record exchange { clients = [] }

abbrev end_of_run : Exchange (TickGenerator ℕ ℕ) × (ℕ → List ℕ) × ℕ
end_of_run = elim (run_all (tick_source plain 1) send rounds (nobody_yet, (λ fd. []), 0)) [
  | none ↦ (nobody_yet, (λ fd. []), 0)
  | some s ↦ s
]

run_all-IsServed_example :
    let (z, last) =
      broadcast_message (tick_source plain 1) send (1 ∷ 2 ∷ 3 ∷ []) (end_of_run.0, end_of_run.1) in
    IsServed 8 (1 ∷ 2 ∷ 3 ∷ []) end_of_run.1 last z
unfolding run_all Option.bind tick_source message_bytes body_bytes header_bytes payload_bytes
    quote_pay_bytes trade_pay_bytes
run_all-IsServed_example =
    run_all-IsServed (tick_source plain 1) send (λ log. log) send-Effect rounds nobody_yet
      end_of_run.0 (λ fd. []) end_of_run.1 0 end_of_run.2 refl refl (1 ∷ 2 ∷ 3 ∷ []) 8
