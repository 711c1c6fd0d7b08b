-- ===== src/Client/Socket.antt =====
-- src/client/socket.h and socket.cpp: the client's connection, and its retries.
-- The system calls are a parameter, `Kernel`, over a state `W` of the outside. A descriptor is a
-- number or -1, `none`; `perror` and the log lines are left out. `do_connect` is cut into the stages
-- that its early returns separate.
pub mod Tidy
pub mod Descriptors
pub mod Connect
pub mod Retries
pub mod Local
mod Examples
use market_data_handle.Prelude.{
  ℕ, zero, suc, ◌+◌, ◌*◌, ◌^◌, Bool, true, false, Option, none, some, List, [], ◌∷◌, ◌++◌, map,
  ◌==◌, if◌then◌else◌, ltb, length, concat, min, u16, u32, u64_max,
}
use market_data_handle.Protocol.Bytes.{le_bytes}
use market_data_handle.Client.Kernel.{
  Fd, Kernel, RecvResult, received, end_of_stream, would_block, recv_failed, SockOpt, tcp_nodelay,
  recv_buffer, priority, EpollOp, ctl_add, ctl_mod, Interest, writable, readable,
}

-- `MarketDataSocket`
pub record Socket : Type 0 where
  pub fd : Fd
  pub epoll_fd : Fd
  pub connected : Bool
  pub host : List ℕ
  pub port : ℕ  -- uint16_t

abbrev pub init : Socket
init = record { fd = none; epoll_fd = none; connected = false; host = []; port = 0 }

abbrev pub cmd_subscribe : ℕ
cmd_subscribe = 0xFF

abbrev pub connect_timeout : ℕ
connect_timeout = 5000

-- `RetrySocket`, less its socket. A negative `max_retries` makes no round, as 0 does.
pub record Retry : Type 0 where
  pub host : List ℕ
  pub port : ℕ
  pub max_retries : ℕ
  pub base_backoff_ms : ℕ  -- uint32_t

-- What the retry loop ends with. `waits` are the times it slept, which no code reads.
pub record RetryEnd (W : Type 0) : Type 0 where
  pub ok : Bool
  pub waits : List ℕ
  pub state : Socket × W

-- The buffer of `send_subscription`.
unfoldable pub subscription_bytes : List ℕ → List ℕ
subscription_bytes symbol_ids =
    cmd_subscribe ∷ le_bytes 2 (u16 (length symbol_ids)) ++ concat (map (le_bytes 2) symbol_ids)

module _ {W : Type 0} (k : Kernel W) where
  unfoldable pub set_tcp_nodelay : Bool → Socket × W → Bool × W
  set_tcp_nodelay enable (s, w) = k.set_option s.fd tcp_nodelay (if enable then 1 else 0) w

  unfoldable pub set_recv_buffer_size : ℕ → Socket × W → Bool × W
  set_recv_buffer_size bytes (s, w) = k.set_option s.fd recv_buffer (u32 bytes) w

  unfoldable pub set_socket_priority : ℕ → Socket × W → Bool × W
  set_socket_priority level (s, w) = k.set_option s.fd priority level w

  -- `if (fd_ >= 0) { ::close(fd_); fd_ = -1; }`, and the same for `epoll_fd_`.
  unfoldable pub close_fd : Socket × W → Socket × W
  close_fd (s, w) = elim s.fd [ none ↦ (s, w) | some d ↦ (record s { fd = none }, k.close d w) ]

  unfoldable pub close_epoll : Socket × W → Socket × W
  close_epoll (s, w) = elim s.epoll_fd [
    | none ↦ (s, w)
    | some d ↦ (record s { epoll_fd = none }, k.close d w)
  ]

  -- An error return of `do_connect` behind the call of `socket`.
  unfoldable pub give_up : ℕ → Socket × W → Bool × (Socket × W)
  give_up d (s, w) = (false, (record s { fd = none }, k.close d w))

  -- From the test of the connection on.
  unfoldable pub check_connect : ℕ → ℕ → Socket × W → Bool × (Socket × W)
  unfolding give_up
  check_connect d e (s, w) =
      let (err, w) = k.socket_error d w in
      if err == 0
      then (true, (record s { connected = true }, k.epoll_ctl e ctl_mod d readable w))
      else give_up d (s, w)

  unfoldable pub await_connect : ℕ → ℕ → ℕ → Socket × W → Bool × (Socket × W)
  unfolding give_up check_connect
  await_connect timeout_ms d e (s, w) =
      let (n, w) = k.epoll_wait (some e) timeout_ms (k.epoll_ctl e ctl_add d writable w) in
      elim n [
        | none ↦ give_up d (s, w)
        | some zero ↦ give_up d (s, w)
        | some (suc more) ↦ check_connect d e (s, w)
      ]

  unfoldable pub use_epoll : ℕ → ℕ → Socket × W → Bool × (Socket × W)
  unfolding await_connect
  use_epoll timeout_ms d (s, w) = elim s.epoll_fd [
    | some e ↦ await_connect timeout_ms d e (s, w)
    | none ↦
        let (made, w) = k.epoll_create w in
        elim made [
          | none ↦ (false, (s, w))
          | some e ↦ await_connect timeout_ms d e (record s { epoll_fd = some e }, w)
        ]
  ]

  -- `begin_connect` is whether the connection stands or is in progress.
  unfoldable pub open_connection : ℕ → ℕ → Socket × W → Bool × (Socket × W)
  unfolding give_up use_epoll set_tcp_nodelay set_recv_buffer_size
  open_connection timeout_ms d (s, w) =
      let (_, w) = set_tcp_nodelay true (s, w) in
      let (_, w) = set_recv_buffer_size (4 * 1024 * 1024) (s, w) in
      elim (k.parse_address s.host) [
        | none ↦ give_up d (s, w)
        | some address ↦
            let (begun, w) = k.begin_connect d address s.port w in
            if begun then use_epoll timeout_ms d (s, w) else give_up d (s, w)
      ]

  unfoldable pub do_connect : ℕ → Socket × W → Bool × (Socket × W)
  unfolding close_fd open_connection
  do_connect timeout_ms σ =
      let (s, w) = close_fd σ in
      let (made, w) = k.socket w in
      elim made [
        | none ↦ (false, (s, w))
        | some d ↦ open_connection timeout_ms d (record s { fd = some d }, w)
      ]

  unfoldable pub connect : List ℕ → ℕ → ℕ → Socket × W → Bool × (Socket × W)
  unfolding do_connect
  connect host port timeout_ms (s, w) =
      do_connect timeout_ms (record s { host = host; port = port }, w)

  -- The result is a `size_t` by the class, so that -1 is the greatest number. What is received is
  -- returned beside it: it stands at the front of `buffer`.
  unfoldable pub receive : ℕ → Socket × W → (ℕ × List ℕ) × (Socket × W)
  receive max_len (s, w) =
      if s.connected
      then (let (r, w) = k.recv s.fd max_len w in
          elim r [
            | received bytes ↦ ((length bytes, bytes), (s, w))
            | end_of_stream ↦ ((u64_max, []), (record s { connected = false }, w))
            | would_block ↦ ((0, []), (s, w))
            | recv_failed ↦ ((u64_max, []), (record s { connected = false }, w))
          ])
      else ((u64_max, []), (s, w))

  unfoldable pub send_subscription : List ℕ → Socket × W → Bool × (Socket × W)
  unfolding subscription_bytes
  send_subscription symbol_ids (s, w) =
      if s.connected
      then (let bytes = subscription_bytes symbol_ids in
          let (sent, w) = k.send s.fd bytes w in
          (elim sent [ none ↦ false | some n ↦ n == 3 + length symbol_ids * 2 ], (s, w)))
      else (false, (s, w))

  unfoldable pub wait_for_data : ℕ → Socket × W → Option ℕ × (Socket × W)
  wait_for_data timeout_ms (s, w) = let (n, w) = k.epoll_wait s.epoll_fd timeout_ms w in (n, (s, w))

  unfoldable pub disconnect : Socket × W → Socket × W
  unfolding close_fd close_epoll
  disconnect (s, w) = close_epoll (close_fd (record s { connected = false }, w))

  -- The loop of `connect_with_retry`; `none` means that the fuel ran out.
  unfoldable pub retry_loop : ℕ → Retry → ℕ → ℕ → Socket × W → Option (RetryEnd W)
  unfolding connect
  retry_loop zero r attempt backoff σ = none
  retry_loop (suc fuel) r attempt backoff σ =
      let (ok, (s, w)) = connect r.host r.port connect_timeout σ in
      let later =
        retry_loop fuel r (attempt + 1) (min (u32 (backoff * 2)) 30000)
          (s, k.sleep_for backoff w) in
      if ltb attempt r.max_retries
      then (if ok
          then some (record { ok = true; waits = []; state = (s, w) })
          else elim later [ none ↦ none | some e ↦ some (record e { waits = backoff ∷ e.waits }) ])
      else some (record { ok = false; waits = []; state = σ })

  unfoldable pub connect_with_retry : ℕ → Retry → Socket × W → Option (RetryEnd W)
  unfolding retry_loop
  connect_with_retry fuel r σ = retry_loop fuel r 0 r.base_backoff_ms σ
