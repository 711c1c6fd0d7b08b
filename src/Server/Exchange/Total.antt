-- ===== src/Server/Exchange/Total.antt =====
-- The loop of `run` stays within the generator's vector and does not divide by zero.
use mathlib.Core.Option
use market_data_handle.Prelude.{
  ℕ, ◌+◌, ◌%◌, ◌≤◌, ◌<◌, ◌^◌, ◌≡◌, refl, Bool, true, false, none, some, List, [], ◌∷◌, ◌==◌,
  if◌then◌else◌, ltb, inl, inr, Bool-cases, arith, u16, u32, IsU32,
}
use market_data_handle.Protocol.{Message, message_bytes, trade, quote, heartbeat}
use market_data_handle.Server.Exchange.Ticks.{TickLaws}
use market_data_handle.Server.Exchange.{
  TickSource, SendResult, Broadcast, Exchange, PollEvent, incoming, hangup, readable, Round,
  is_empty, handle_event, handle_events, handle_new_connection, handle_client_disconnect,
  disconnect_all, broadcast_loop, broadcast_message, tick_seq, generate, generate_and_broadcast,
  broadcast_heartbeat, run_round, run_all,
}

-- What the ticks need of the simulator: some symbols, no more than a `uint16_t` tells apart, that the
-- generator can serve.
pub record Serves {G : Type 0} (src : TickSource G) (Ready : G → Type 0) (count : ℕ) (gen : G)
    (seq : ℕ) : Type 0 where
  pub laws : TickLaws src count Ready
  pub ready : Ready gen
  pub some_symbols : 0 < count
  pub few_symbols : count ≤ 2 ^ 16
  pub number : IsU32 seq

module _ {G : Type 0} (src : TickSource G) (Ready : G → Type 0) where
  next-Serves :
      {count : ℕ} {gen : G} {seq : ℕ}
      → Serves src Ready count gen seq
      → (g : G) → Ready g
      → (n : ℕ) → Serves src Ready count g (u32 n)
  next-Serves h g ready n = record {
    laws = h.laws;
    ready = ready;
    some_symbols = h.some_symbols;
    few_symbols = h.few_symbols;
    number = omega arith;
  }

  abbrev pub IsServing : Exchange G → Type 0
  IsServing x = Serves src Ready x.symbol_count x.gen x.seq_no

  handle_event-IsServing :
      (e : PollEvent) (x : Exchange G) → IsServing x → IsServing (handle_event e x)
  unfolding handle_event handle_new_connection handle_client_disconnect
  handle_event-IsServing (incoming none) x h = h
  handle_event-IsServing (incoming (some fd)) x h = h
  handle_event-IsServing (hangup fd) x h = h
  handle_event-IsServing (readable fd true) x h = h
  handle_event-IsServing (readable fd false) x h = h

  handle_events-IsServing :
      (es : List PollEvent) (x : Exchange G) → IsServing x → IsServing (handle_events es x)
  unfolding handle_events
  handle_events-IsServing [] x h = h
  handle_events-IsServing (e ∷ es) x h =
      handle_events-IsServing es (handle_event e x) (handle_event-IsServing e x h)

  disconnect_all-IsServing :
      (fds : List ℕ) (x : Exchange G) → IsServing x → IsServing (disconnect_all fds x)
  unfolding disconnect_all handle_client_disconnect
  disconnect_all-IsServing [] x h = h
  disconnect_all-IsServing (fd ∷ fds) x h =
      disconnect_all-IsServing fds (handle_client_disconnect fd x) h

  tick_seq-IsU32 : (x : Exchange G) → IsU32 x.seq_no → IsU32 (tick_seq x)
  unfolding tick_seq
  tick_seq-IsU32 x h = ground arith

  module _ {N : Type 0} (send : ℕ → List ℕ → N → SendResult × N) where
    broadcast_message-IsServing :
        (bytes : List ℕ) (x : Exchange G) (net : N)
        → IsServing x
        → IsServing (broadcast_message src send bytes (x, net)).0
    unfolding broadcast_message
    broadcast_message-IsServing bytes x net h =
        let b : Broadcast N =
          broadcast_loop src send bytes x.clients
            (record { slow_fds = x.slow_clients; to_drop = []; net = net }) in
        disconnect_all-IsServing b.to_drop (record x { slow_clients = b.slow_fds }) h

    -- A tick makes a message, whatever the number, and the simulator can go on.
    generate-IsServing :
        (x : Exchange G)
        → IsServing x
        → (m : Message) × (y : Exchange G) × (generate src send x ≡ some (m, y)) × IsServing y
    unfolding generate
    generate-IsServing x h =
        let seq = tick_seq x in
        let turn : ℕ = x.seq_no % x.symbol_count in
        let within : turn < x.symbol_count = grind (arith, h.some_symbols) in
        let sym : u16 turn ≡ turn = omega (arith, h.few_symbols) in
        let some_there : (x.symbol_count == 0) ≡ false = ground (arith, h.some_symbols) in
        let fits = tick_seq-IsU32 x h.number in
        elim (Bool-cases (ltb (seq % 10) 3)) [
          | inl is_trade ↦
              let (m, g, made, law) = h.laws.trades turn seq x.gen within fits h.ready in
              (
                trade m,
                record x { gen = g; seq_no = u32 (seq + 1) },
                rw (some_there, is_trade, sym, made) refl,
                next-Serves h g law.ready (seq + 1),
              )
          | inr is_quote ↦
              let (m, g, made, law) = h.laws.quotes turn seq x.gen within fits h.ready in
              (
                quote m,
                record x { gen = g; seq_no = u32 (seq + 1) },
                rw (some_there, is_quote, sym, made) refl,
                next-Serves h g law.ready (seq + 1),
              )
        ]

    generate_and_broadcast-IsServing :
        (x : Exchange G) (net : N)
        → IsServing x
        → (y : Exchange G) × (after : N) × (generate_and_broadcast src send (x, net)
            ≡ some (y, after))
          × IsServing y
    unfolding generate_and_broadcast
    generate_and_broadcast-IsServing x net h = elim (Bool-cases (is_empty x.clients)) [
      | inl nobody ↦ (x, net, rw (nobody, generate_and_broadcast) refl, h)
      | inr somebody ↦
          let (m, y, made, kept) = generate-IsServing x h in
          let sent = broadcast_message src send (message_bytes m) (y, net) in
          (
            sent.0,
            sent.1,
            rw (somebody, made, generate_and_broadcast) refl,
            broadcast_message-IsServing (message_bytes m) y net kept,
          )
    ]

    broadcast_heartbeat-IsServing :
        (x : Exchange G) (net : N)
        → IsServing x
        → IsServing (broadcast_heartbeat src send (x, net)).0
    unfolding broadcast_heartbeat
    broadcast_heartbeat-IsServing x net h = elim (Bool-cases (is_empty x.clients)) [
      | inl e ↦ rw (e, broadcast_heartbeat) h
      | inr e ↦
          let law = h.laws.heartbeats x.seq_no x.gen h.number h.ready in
          let kept : Serves src Ready x.symbol_count (src.make_heartbeat x.seq_no x.gen).1
              (u32 (x.seq_no + 1)) =
            next-Serves h _ law.ready (x.seq_no + 1) in
          rw (e, broadcast_heartbeat)
            (broadcast_message-IsServing
              (message_bytes (heartbeat (src.make_heartbeat x.seq_no x.gen).0))
              (record x {
                gen = (src.make_heartbeat x.seq_no x.gen).1;
                seq_no = u32 (x.seq_no + 1);
              })
              net kept)
    ]

    tick_due-IsServing :
        (due : Bool) (x : Exchange G) (net : N)
        → IsServing x
        → (y : Exchange G) × (after : N) × ((if due
              then generate_and_broadcast src send (x, net)
              else some (x, net))
            ≡ some (y, after))
          × IsServing y
    tick_due-IsServing true x net h = generate_and_broadcast-IsServing x net h
    tick_due-IsServing false x net h = (x, net, refl, h)

    second_over-IsServing :
        (over : Bool) (s beaten : Exchange G × N) (t : ℕ)
        → IsServing s.0
        → IsServing beaten.0
        → (let r : Exchange G × N × ℕ = if over then (beaten.0, beaten.1, 0) else (s.0, s.1, t) in
            IsServing r.0)
    second_over-IsServing true s beaten t h h' = h'
    second_over-IsServing false s beaten t h h' = h

    run_round-IsServing :
        (r : Round) (x : Exchange G) (net : N) (t : ℕ)
        → IsServing x
        → (y : Exchange G) × (after : N) × (u : ℕ) × (run_round src send r (x, net, t)
            ≡ some (y, after, u))
          × IsServing y
    unfolding run_round
    run_round-IsServing r x net t h =
        let polled = handle_events r.events x in
        let (z, n, ticked, kept) =
          tick_due-IsServing (ltb t r.target_ticks) polled net
            (handle_events-IsServing r.events x h) in
        let beaten = broadcast_heartbeat src send (z, n) in
        let t' = if ltb t r.target_ticks then t + 1 else t in
        let ended : Exchange G × N × ℕ =
          if r.second_over then (beaten.0, beaten.1, 0) else (z, n, t') in
        (
          ended.0,
          ended.1,
          ended.2,
          rw (ticked, run_round) refl,
          second_over-IsServing r.second_over (z, n) beaten t' kept
              (broadcast_heartbeat-IsServing z n kept),
        )

    -- Whatever the events and the clock, and however often the number of the messages wraps: from 1 to
    -- 65536 symbols that a lawful generator is ready for, the loop of `run` gets through all its rounds.
    pub run_all-IsServing :
        (rs : List Round) (x : Exchange G) (net : N) (t : ℕ)
        → IsServing x
        → (y : Exchange G) × (after : N) × (u : ℕ) × (run_all src send rs (x, net, t)
            ≡ some (y, after, u))
          × IsServing y
    unfolding run_all Option.bind
    run_all-IsServing [] x net t h = (x, net, t, refl, h)
    run_all-IsServing (r ∷ rs) x net t h =
        let (z, n, v, first, kept) = run_round-IsServing r x net t h in
        let (y, after, u, rest, served) = run_all-IsServing rs z n v kept in
        (y, after, u, rw (first, run_all) rest, served)
