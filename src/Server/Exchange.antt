-- ===== src/Server/Exchange.antt =====
-- src/server/exchange_simulator.h and exchange_simulator.cpp: the broadcast of generated ticks.
-- The tick generator is an interface, `TickSource`. The kernel's `send` is a parameter that takes
-- and returns the state `N` of the network; `remaining` is the list of the bytes not sent yet.
-- The two sets of descriptors are lists without repetition, walked in their order.
pub mod Send
pub mod Delivery
pub mod Ticks
pub mod Stream
pub mod Ticking
pub mod EndToEnd
pub mod Runs
pub mod Total
pub mod Examples
use mathlib.Core.Option
use market_data_handle.Prelude.{
  length, ℕ, zero, suc, ◌+◌, ◌-◌, ◌*◌, ◌%◌, ◌<◌, ◌≡◌, Bool, true, false, not, ◌&&◌, ◌||◌, Option,
  none, some, List, [], ◌∷◌, ◌++◌, ltb, ◌==◌, if◌then◌else◌, drop, u16, u32, IsU32, insert, erase,
}
use market_data_handle.Protocol.{
  Message, trade, quote, heartbeat, TradeMsg, QuoteMsg, HeartbeatMsg, message_bytes, header_of,
}
use market_data_handle.Protocol.Layout.{IsSealed}

-- The operations of `TickGenerator` that the exchange calls; `none` is an access out of its vector.
pub record TickSource (G : Type 0) : Type 0 where
  pub make_quote : ℕ → ℕ → G → Option (QuoteMsg × G)
  pub make_trade : ℕ → ℕ → G → Option (TradeMsg × G)
  pub make_heartbeat : ℕ → G → HeartbeatMsg × G

-- What `send(fd, ptr, remaining, MSG_DONTWAIT | MSG_NOSIGNAL)` returns: a positive number, -1 with
-- `EAGAIN` or `EWOULDBLOCK`, anything else.
pub data SendResult : Type 0 where
  accepted : ℕ → SendResult
  would_block : SendResult
  failed : SendResult

pub record Exchange (G : Type 0) : Type 0 where
  pub symbol_count : ℕ
  pub gen : G
  pub clients : List ℕ
  pub slow_clients : List ℕ
  pub fault_injection : Bool
  pub seq_no : ℕ  -- uint32_t

-- How the inner loop of `broadcast_message` ends for one client.
pub data SendEnd : Type 0 where
  finished : SendEnd
  slow : SendEnd
  dead : SendEnd

-- The variables of `broadcast_message` as its loop runs.
pub record Broadcast (N : Type 0) : Type 0 where
  pub slow_fds : List ℕ
  pub to_drop : List ℕ
  pub net : N

-- An entry of `epoll_wait`: the listening socket with what `accept4` returned, a client with
-- `EPOLLHUP` or `EPOLLERR`, a client with `EPOLLIN` and whether `recv` returned a positive number.
pub data PollEvent : Type 0 where
  incoming : Option ℕ → PollEvent
  hangup : ℕ → PollEvent
  readable : ℕ → Bool → PollEvent

-- What one round of `run` gets from the system: the events, and from the clock the number of ticks
-- that are due, `elapsed_s * rate`, and whether `elapsed_s >= 1.0`.
pub record Round : Type 0 where
  pub events : List PollEvent
  pub target_ticks : ℕ
  pub second_over : Bool

abbrev pub is_empty : List ℕ → Bool
is_empty [] = true
is_empty (x ∷ xs) = false

-- What is kept of the end for one client.
unfoldable pub note_end : {N : Type 0} → ℕ → SendEnd → N → Broadcast N → Broadcast N
note_end fd finished net' b = record b { net = net' }
note_end fd slow net' b = record b { slow_fds = insert fd b.slow_fds; net = net' }
note_end fd dead net' b = record b { to_drop = b.to_drop ++ (fd ∷ []); net = net' }

module _ {G : Type 0} where
  -- `epoll_ctl` and `close` end the descriptor's life; nothing else of the simulator sees them.
  unfoldable pub handle_client_disconnect : ℕ → Exchange G → Exchange G
  handle_client_disconnect fd x = record x {
    clients = erase fd x.clients;
    slow_clients = erase fd x.slow_clients;
  }

  unfoldable pub disconnect_all : List ℕ → Exchange G → Exchange G
  unfolding handle_client_disconnect
  disconnect_all [] x = x
  disconnect_all (fd ∷ fds) x = disconnect_all fds (handle_client_disconnect fd x)

  -- What `accept4` returned: `none` for a negative number.
  unfoldable pub handle_new_connection : Option ℕ → Exchange G → Exchange G
  handle_new_connection none x = x
  handle_new_connection (some fd) x = record x { clients = insert fd x.clients }

  -- The number that a tick takes, and the one that fault injection skips before it.
  unfoldable pub tick_seq : Exchange G → ℕ
  tick_seq x = if x.fault_injection && (x.seq_no % 100 == 0) then u32 (x.seq_no + 1) else x.seq_no

  unfoldable pub handle_event : PollEvent → Exchange G → Exchange G
  unfolding handle_new_connection handle_client_disconnect
  handle_event (incoming fd) x = handle_new_connection fd x
  handle_event (hangup fd) x = handle_client_disconnect fd x
  handle_event (readable fd got) x = if got then x else handle_client_disconnect fd x

  unfoldable pub handle_events : List PollEvent → Exchange G → Exchange G
  unfolding handle_event
  handle_events [] x = x
  handle_events (e ∷ es) x = handle_events es (handle_event e x)

module _ {G N : Type 0} (src : TickSource G) (send : ℕ → List ℕ → N → SendResult × N) where
  -- The loop `while (remaining > 0)`; each round but the last sends a byte at least, so as many
  -- rounds as there are bytes are enough.
  unfoldable pub send_loop : ℕ → ℕ → List ℕ → N → SendEnd × N
  send_loop rounds fd [] net = (finished, net)
  send_loop zero fd (b ∷ bs) net = (dead, net)
  send_loop (suc rounds) fd (b ∷ bs) net =
      let (r, net') = send fd (b ∷ bs) net in
      elim r [
        | accepted n ↦ send_loop rounds fd (drop n (b ∷ bs)) net'
        | would_block ↦ (slow, net')
        | failed ↦ (dead, net')
      ]

  -- The loop over the clients: the slow ones are inserted, the dead ones are collected.
  unfoldable pub broadcast_loop : List ℕ → List ℕ → Broadcast N → Broadcast N
  unfolding send_loop note_end
  broadcast_loop bytes [] b = b
  broadcast_loop bytes (fd ∷ fds) b =
      let (end, net') = send_loop (length bytes) fd bytes b.net in
      broadcast_loop bytes fds (note_end fd end net' b)

  unfoldable pub broadcast_message : List ℕ → Exchange G × N → Exchange G × N
  unfolding broadcast_loop disconnect_all
  broadcast_message bytes (x, net) =
      let b =
        broadcast_loop bytes x.clients
          (record { slow_fds = x.slow_clients; to_drop = []; net = net }) in
      (disconnect_all b.to_drop (record x { slow_clients = b.slow_fds }), b.net)

  -- `none` where the source divides by a symbol count of 0 or leaves the generator's vector.
  unfoldable pub generate : Exchange G → Option (Message × Exchange G)
  unfolding tick_seq
  generate x =
      let sym = u16 (x.seq_no % x.symbol_count) in
      let seq = tick_seq x in
      let next = λ (g : G). record x { gen = g; seq_no = u32 (seq + 1) } in
      if x.symbol_count == 0
      then none
      else if ltb (seq % 10) 3
      then Option.map (λ r. (trade r.0, next r.1)) (src.make_trade sym seq x.gen)
      else Option.map (λ r. (quote r.0, next r.1)) (src.make_quote sym seq x.gen)

  unfoldable pub generate_and_broadcast : Exchange G × N → Option (Exchange G × N)
  unfolding generate broadcast_message
  generate_and_broadcast (x, net) =
      if is_empty x.clients
      then some (x, net)
      else Option.map (λ r. broadcast_message (message_bytes r.0) (r.1, net)) (generate x)

  -- The heartbeat of `run`, once a second.
  unfoldable pub broadcast_heartbeat : Exchange G × N → Exchange G × N
  unfolding broadcast_message
  broadcast_heartbeat (x, net) =
      let (hb, g) = src.make_heartbeat x.seq_no x.gen in
      if is_empty x.clients
      then (x, net)
      else broadcast_message (message_bytes (heartbeat hb))
          (record x { gen = g; seq_no = u32 (x.seq_no + 1) }, net)

  -- One round of the loop of `run`. `t` is `ticks_this_second`.
  unfoldable pub run_round : Round → Exchange G × N × ℕ → Option (Exchange G × N × ℕ)
  unfolding handle_events generate_and_broadcast broadcast_heartbeat
  run_round r (x, net, t) =
      let polled = handle_events r.events x in
      let due = ltb t r.target_ticks in
      let ticked = if due then generate_and_broadcast (polled, net) else some (polled, net) in
      Option.map
        (λ s.
          let t' = if due then t + 1 else t in
          let beaten = broadcast_heartbeat s in
          if r.second_over then (beaten.0, beaten.1, 0) else (s.0, s.1, t'))
        ticked

  -- The loop of `run`, for the rounds until `running_` is cleared.
  unfoldable pub run_all : List Round → Exchange G × N × ℕ → Option (Exchange G × N × ℕ)
  unfolding run_round
  run_all [] σ = some σ
  run_all (r ∷ rs) σ = Option.bind (run_round r σ) (run_all rs)
