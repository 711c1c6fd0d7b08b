-- ===== src/Server/Exchange/Runs.antt =====
-- The clients over a run of the exchange, with connections that come and go.
use mathlib.Core.Path.{subst}
use mathlib.Core.Option
use market_data_handle.Prelude.{
  ℕ, ◌+◌, ◌%◌, ◌≡◌, refl, sym, ap, ◌∙◌, Bool, true, false, Option, none, some, List, [], ◌∷◌, ◌==◌,
  if◌then◌else◌, ltb, inl, inr, NoDup, member, insert, erase-NoDup, map-eq-some, bind-eq-some,
  Bool-cases, arith, u16, u32,
}
use market_data_handle.Protocol.{Message, TradeMsg, QuoteMsg, trade, quote, message_bytes}
use market_data_handle.Server.Exchange.Send.{Effect}
use market_data_handle.Server.Exchange.Delivery.{IsServed, broadcast_message-log}
use market_data_handle.Server.Exchange.{
  TickSource, SendResult, Broadcast, Exchange, PollEvent, incoming, hangup, readable, Round,
  is_empty, handle_event, handle_events, handle_new_connection, handle_client_disconnect,
  disconnect_all, broadcast_loop, broadcast_message, tick_seq, generate, generate_and_broadcast,
  broadcast_heartbeat, run_round, run_all,
}

insert-NoDup : (x : ℕ) (xs : List ℕ) → NoDup xs → NoDup (insert x xs)
insert-NoDup x xs nd = elim (Bool-cases (member x xs)) [ inl e ↦ rw e nd | inr e ↦ rw e (e, nd) ]

abbrev pair : {A B : Type 0} → A → B → A × B
pair a b = (a, b)

module _ {G : Type 0} where
  handle_event-NoDup :
      (e : PollEvent) (x : Exchange G) → NoDup x.clients → NoDup (handle_event e x).clients
  unfolding handle_event handle_new_connection handle_client_disconnect
  handle_event-NoDup (incoming none) x nd = nd
  handle_event-NoDup (incoming (some fd)) x nd = insert-NoDup fd x.clients nd
  handle_event-NoDup (hangup fd) x nd = erase-NoDup fd x.clients nd
  handle_event-NoDup (readable fd true) x nd = nd
  handle_event-NoDup (readable fd false) x nd = erase-NoDup fd x.clients nd

  handle_events-NoDup :
      (es : List PollEvent) (x : Exchange G) → NoDup x.clients → NoDup (handle_events es x).clients
  unfolding handle_events
  handle_events-NoDup [] x nd = nd
  handle_events-NoDup (e ∷ es) x nd =
      handle_events-NoDup es (handle_event e x) (handle_event-NoDup e x nd)

  disconnect_all-NoDup :
      (fds : List ℕ) (x : Exchange G) → NoDup x.clients → NoDup (disconnect_all fds x).clients
  unfolding disconnect_all handle_client_disconnect
  disconnect_all-NoDup [] x nd = nd
  disconnect_all-NoDup (fd ∷ fds) x nd =
      disconnect_all-NoDup fds (handle_client_disconnect fd x) (erase-NoDup fd x.clients nd)

  tick-NoDup :
      {N : Type 0} (due : Bool) (made : Option (Exchange G × N)) (x y : Exchange G) (net after : N)
      → (made ≡ some (y, after) → NoDup y.clients)
      → NoDup x.clients
      → (if due then made else some (x, net)) ≡ some (y, after)
      → NoDup y.clients
  tick-NoDup true made x y net after kept nd ran = kept ran
  tick-NoDup false made x y net after kept nd ran =
      let same : x.clients ≡ y.clients = ground (arith, ran) in subst NoDup same nd

  second-NoDup :
      {N : Type 0} (over : Bool) (s beaten : Exchange G × N) (t : ℕ)
      → NoDup s.0.clients
      → NoDup beaten.0.clients
      → (let r : Exchange G × N × ℕ = if over then (beaten.0, beaten.1, 0) else (s.0, s.1, t) in
          NoDup r.0.clients)
  second-NoDup true s beaten t nd beaten_nd = beaten_nd
  second-NoDup false s beaten t nd beaten_nd = nd

module _ {G N : Type 0} (src : TickSource G) (send : ℕ → List ℕ → N → SendResult × N) where
  broadcast_message-NoDup :
      (bytes : List ℕ) (x : Exchange G) (net : N)
      → NoDup x.clients
      → NoDup (broadcast_message src send bytes (x, net)).0.clients
  unfolding broadcast_message
  broadcast_message-NoDup bytes x net nd =
      let b : Broadcast N =
        broadcast_loop src send bytes x.clients
          (record { slow_fds = x.slow_clients; to_drop = []; net = net }) in
      disconnect_all-NoDup b.to_drop (record x { slow_clients = b.slow_fds }) nd

  generate-clients :
      (x y : Exchange G) (m : Message) → generate src send x ≡ some (m, y) → x.clients ≡ y.clients
  unfolding generate
  generate-clients x y m made =
      let sym_id = u16 (x.seq_no % x.symbol_count) in
      let next : G → Exchange G = λ g. record x { gen = g; seq_no = u32 (tick_seq x + 1) } in
      elim (Bool-cases (x.symbol_count == 0)) [
        | inl none_there ↦
            let step : generate src send x ≡ none = rw (none_there, generate) refl in
            absurd (ground (arith, made, step))
        | inr some_there ↦ elim (Bool-cases (ltb (tick_seq x % 10) 3)) [
          | inl third ↦
              let f = λ (r : TradeMsg × G). pair (trade r.0) (next r.1) in
              let step : generate src send x
                  ≡ Option.map f (src.make_trade sym_id (tick_seq x) x.gen) =
                rw (some_there, third, generate) refl in
              let (r, got, same) =
                map-eq-some f (src.make_trade sym_id (tick_seq x) x.gen) (sym step ∙ made) in
              ap (λ (p : Message × Exchange G). p.1.clients) same
          | inr other ↦
              let f = λ (r : QuoteMsg × G). pair (quote r.0) (next r.1) in
              let step : generate src send x
                  ≡ Option.map f (src.make_quote sym_id (tick_seq x) x.gen) =
                rw (some_there, other, generate) refl in
              let (r, got, same) =
                map-eq-some f (src.make_quote sym_id (tick_seq x) x.gen) (sym step ∙ made) in
              ap (λ (p : Message × Exchange G). p.1.clients) same
        ]
      ]

  generate_and_broadcast-NoDup :
      (x y : Exchange G) (net after : N)
      → generate_and_broadcast src send (x, net) ≡ some (y, after)
      → NoDup x.clients
      → NoDup y.clients
  unfolding generate_and_broadcast
  generate_and_broadcast-NoDup x y net after ran nd = elim (Bool-cases (is_empty x.clients)) [
    | inl nobody ↦
        let step : generate_and_broadcast src send (x, net) ≡ some (x, net) =
          rw (nobody, generate_and_broadcast) refl in
        let same : x.clients ≡ y.clients = let e = sym step ∙ ran in ground (arith, e) in
        subst NoDup same nd
    | inr somebody ↦
        let f =
          λ (r : Message × Exchange G). broadcast_message src send (message_bytes r.0) (r.1, net) in
        let step : generate_and_broadcast src send (x, net) ≡ Option.map f (generate src send x) =
          rw (somebody, generate_and_broadcast) refl in
        let ((m, z), made, same) = map-eq-some f (generate src send x) (sym step ∙ ran) in
        let kept = subst NoDup (generate-clients x z m made) nd in
        subst NoDup (ap (λ (p : Exchange G × N). p.0.clients) same)
          (broadcast_message-NoDup (message_bytes m) z net kept)
  ]

  broadcast_heartbeat-NoDup :
      (x : Exchange G) (net : N)
      → NoDup x.clients
      → NoDup (broadcast_heartbeat src send (x, net)).0.clients
  unfolding broadcast_heartbeat
  broadcast_heartbeat-NoDup x net nd = elim (Bool-cases (is_empty x.clients)) [
    | inl e ↦ rw (e, broadcast_heartbeat) nd
    | inr e ↦ rw (e, broadcast_heartbeat) (broadcast_message-NoDup _ _ net nd)
  ]

  run_round-NoDup :
      (r : Round) (x y : Exchange G) (net after : N) (t u : ℕ)
      → run_round src send r (x, net, t) ≡ some (y, after, u)
      → NoDup x.clients
      → NoDup y.clients
  unfolding run_round
  run_round-NoDup r x y net after t u ran nd =
      let polled = handle_events r.events x in
      let polled_nd = handle_events-NoDup r.events x nd in
      let ((z, n), ticked, same) = map-eq-some _ _ ran in
      let ticked_nd =
        tick-NoDup (ltb t r.target_ticks) _ polled z net n
          (λ e. generate_and_broadcast-NoDup polled z net n e polled_nd) polled_nd ticked in
      subst NoDup (ap (λ (p : Exchange G × N × ℕ). p.0.clients) same) (
        second-NoDup r.second_over (z, n) (broadcast_heartbeat src send (z, n)) _ ticked_nd
          (broadcast_heartbeat-NoDup z n ticked_nd))

  run_all-NoDup :
      (rs : List Round) (x y : Exchange G) (net after : N) (t u : ℕ)
      → run_all src send rs (x, net, t) ≡ some (y, after, u)
      → NoDup x.clients
      → NoDup y.clients
  unfolding run_all
  run_all-NoDup [] x y net after t u ran nd =
      let kept : x.clients ≡ y.clients = ground (arith, ran) in subst NoDup kept nd
  run_all-NoDup (r ∷ rs) x y net after t u ran nd =
      let ((z, n, v), first, rest) =
        bind-eq-some (run_round src send r (x, net, t)) (run_all src send rs) ran in
      run_all-NoDup rs z y n after v u rest (run_round-NoDup r x z net n t v first nd)

module _ {G N : Type 0} (src : TickSource G) (send : ℕ → List ℕ → N → SendResult × N)
    (log : N → ℕ → List ℕ)
    (network : (fd b : ℕ) (bs : List ℕ) (net : N)
      → let (r, after) = send fd (b ∷ bs) net in Effect fd (b ∷ bs) (log net) (log after) r) where
  -- Whatever connections came and went and whatever was sent in the rounds that a simulator without
  -- clients has gone through: a broadcast then gives each client the whole message once, or only a
  -- first part of it, and then it is a slow client or no client any more; whoever is no client gets
  -- nothing.
  pub run_all-IsServed :
      (rs : List Round) (x y : Exchange G) (net after : N) (t u : ℕ)
      → x.clients ≡ []
      → run_all src send rs (x, net, t) ≡ some (y, after, u)
      → (bytes : List ℕ) (fd : ℕ)
      → let (z, last) = broadcast_message src send bytes (y, after) in
        if member fd y.clients
        then IsServed fd bytes (log after) (log last) z
        else (log last fd ≡ log after fd)
  run_all-IsServed rs x y net after t u nobody ran bytes fd =
      let start : NoDup x.clients = subst NoDup (sym nobody) tt in
      broadcast_message-log src send log network bytes y after fd
        (run_all-NoDup src send rs x y net after t u ran start)
