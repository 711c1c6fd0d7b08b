-- ===== src/Client/Session.antt =====
-- src/client/feed_handler.cpp: the loops of `main`, which tie the socket to the parser and the
-- callbacks: the receive loop on one event, the loop over the events of a connection, and the loop
-- over connections. The flag that the signal handler clears is read from the outside, by `running`.
-- The `goto` out of two loops is the outcome `reconnecting`.
pub mod Reading
pub mod Closing
pub mod Subscription
pub mod GivingUp
pub mod Tidy
mod Examples
use market_data_handle.Prelude.{
  ℕ, zero, suc, ◌+◌, ◌-◌, ◌*◌, Bool, true, false, ◌&&◌, Option, none, some, List, [], ◌∷◌, ◌++◌,
  ◌==◌, if◌then◌else◌, ltb, length, take, drop, u16, u64,
}
use market_data_handle.Parser.{Parser, parse_buf_size, reset}
use market_data_handle.Client.{Client, receive_block}
use market_data_handle.Client.Kernel.{Kernel}
use market_data_handle.Client.Socket.{
  Socket, Retry, receive, send_subscription, wait_for_data, connect_with_retry,
}

abbrev pub recv_buf_size : ℕ
recv_buf_size = 65536

-- `recv_buf` holds `recv_buf_size` bytes.
pub record Feed (W : Type 0) : Type 0 where
  pub sock : Socket
  pub world : W
  pub parser : Parser
  pub client : Client
  pub recv_buf : List ℕ

-- How a loop ends. In `fault` it has left an array; in `no_fuel` it has not ended.
pub data Run (W : Type 0) : Type 0 where
  returned : Feed W → Run W
  reconnecting : Feed W → Run W
  fault : Run W
  no_fuel : Run W

-- How many bytes `feed` copies when it is told that `n` have come, a `size_t`.
unfoldable pub copied : ℕ → ℕ → ℕ
copied used n = if ltb parse_buf_size (u64 (used + n)) then parse_buf_size - used else n

-- The loop that fills `sym_ids`, from number `i` on with `n` rounds left. `reserve` finds room for the
-- numbers where it found it for the names, which take more.
unfoldable pub ids_from : ℕ → ℕ → List ℕ
ids_from zero i = []
ids_from (suc n) i = i ∷ ids_from n (suc i)

unfoldable pub sym_ids : ℕ → List ℕ
unfolding ids_from
sym_ids num_sym = ids_from (u16 num_sym) 0

module _ {W : Type 0} (k : Kernel W) (clock : ℕ → ℕ) where
  -- `sock.receive(recv_buf.data(), RECV_BUF)`
  unfoldable pub receive_chunk : Feed W → ℕ × Feed W
  unfolding receive
  receive_chunk σ =
      let ((n, bytes), (s, w)) = receive k recv_buf_size (σ.sock, σ.world) in
      (n, record σ { sock = s; world = w; recv_buf = bytes ++ drop (length bytes) σ.recv_buf })

  -- `parser.feed(recv_buf.data(), n, …)`
  unfoldable pub feed_buffer : ℕ → Feed W → Option (Feed W)
  feed_buffer n σ =
      if ltb recv_buf_size (copied (length σ.parser.buf) n)
      then none
      else elim (receive_block clock (σ.parser, σ.client) (take n σ.recv_buf)) [
        | none ↦ none
        | some (p, c) ↦ some (record σ { parser = p; client = c })
      ]

  -- `n` is a `size_t`, which the test `n < 0` compares as such.
  unfoldable pub drain : ℕ → Feed W → Run W
  drain zero σ = no_fuel
  drain (suc fuel) σ =
      let (n, τ) = receive_chunk σ in
      let next : Run W = elim (feed_buffer n τ) [ none ↦ fault | some υ ↦ drain fuel υ ] in
      if ltb n 0 then reconnecting τ else if n == 0 then returned τ else next

module _ {W : Type 0} (k : Kernel W) (clock : ℕ → ℕ) (running : W → Bool) where
  unfoldable pub session : ℕ → Feed W → Run W
  unfolding drain wait_for_data
  session zero σ = no_fuel
  session (suc fuel) σ =
      let (ev, (s, w)) = wait_for_data k 100 (σ.sock, σ.world) in
      let τ = record σ { sock = s; world = w } in
      let again : Run W = session fuel τ in
      let read : Run W = elim (drain k clock fuel τ) [
        | returned υ ↦ session fuel υ
        | reconnecting υ ↦ reconnecting υ
        | fault ↦ fault
        | no_fuel ↦ no_fuel
      ] in
      if running σ.world && σ.sock.connected
      then elim ev [ none ↦ reconnecting τ | some zero ↦ again | some (suc m) ↦ read ]
      else reconnecting σ

  -- A connection that stands: subscribe, start the parser anew, and read.
  unfoldable pub run_connection : ℕ → ℕ → Feed W → Run W
  unfolding session sym_ids
  run_connection num_sym fuel σ =
      let (sent, (s, w)) = send_subscription k (sym_ids num_sym) (σ.sock, σ.world) in
      session fuel (record σ { sock = s; world = w; parser = reset σ.parser })

  unfoldable pub main_loop : ℕ → Retry → ℕ → Feed W → Run W
  unfolding run_connection
  main_loop zero r num_sym σ = no_fuel
  main_loop (suc fuel) r num_sym σ =
      let tried : Run W = elim (connect_with_retry k (suc r.max_retries) r (σ.sock, σ.world)) [
        | none ↦ no_fuel
        | some e ↦
            let τ = record σ { sock = e.state.0; world = e.state.1 } in
            elim e.ok [
              | false ↦ returned τ
              | true ↦ elim (run_connection num_sym fuel τ) [
                | reconnecting υ ↦
                    main_loop fuel r num_sym (record υ { world = k.sleep_for 500 υ.world })
                | returned υ ↦ returned υ
                | fault ↦ fault
                | no_fuel ↦ no_fuel
              ]
            ]
      ] in
      if running σ.world then tried else returned σ
