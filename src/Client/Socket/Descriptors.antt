-- ===== src/Client/Socket/Descriptors.antt =====
-- Any use of a socket leaves the descriptors of the process in order.
use market_data_handle.Prelude.{
  ℕ, ◌≡◌, ◌⊎◌, refl, ◌∙◌, Bool, true, false, List, [], ◌∷◌, ◌||◌, arith, Option-cases, Bool-cases,
  inl, inr,
}
use market_data_handle.Client.Kernel.{
  Kernel, Descriptors, RecvResult, received, end_of_stream, would_block, recv_failed, tcp_nodelay,
  recv_buffer, priority,
}
use market_data_handle.Client.Socket.Tidy.{
  owns, Tidy, Tidy-keep, Tidy-flag, close_fd-Tidy, close_epoll-Tidy, do_connect-Tidy,
}
use market_data_handle.Client.Socket.{
  Socket, init, set_tcp_nodelay, set_recv_buffer_size, set_socket_priority, close_fd, close_epoll,
  connect, receive, send_subscription, wait_for_data, disconnect,
}

-- What a caller does with a socket.
pub data Use : Type 0 where
  use_connect : List ℕ → ℕ → ℕ → Use
  use_receive : ℕ → Use
  use_send : List ℕ → Use
  use_wait : ℕ → Use
  use_disconnect : Use
  use_nodelay : Bool → Use
  use_buffer_size : ℕ → Use
  use_priority : ℕ → Use

module _ {W : Type 0} (k : Kernel W) where
  unfoldable pub use_once : Use → Socket × W → Socket × W
  use_once (use_connect host port timeout_ms) σ = (connect k host port timeout_ms σ).1
  use_once (use_receive max_len) σ = (receive k max_len σ).1
  use_once (use_send symbol_ids) σ = (send_subscription k symbol_ids σ).1
  use_once (use_wait timeout_ms) σ = (wait_for_data k timeout_ms σ).1
  use_once use_disconnect σ = disconnect k σ
  use_once (use_nodelay enable) (s, w) = (s, (set_tcp_nodelay k enable (s, w)).1)
  use_once (use_buffer_size bytes) (s, w) = (s, (set_recv_buffer_size k bytes (s, w)).1)
  use_once (use_priority level) (s, w) = (s, (set_socket_priority k level (s, w)).1)

  unfoldable pub use_all : List Use → Socket × W → Socket × W
  unfolding use_once
  use_all [] σ = σ
  use_all (u ∷ us) σ = use_all us (use_once u σ)

recv-cases :
    (r : RecvResult)
    → ((xs : List ℕ) × (r ≡ received xs))
      ⊎ (r ≡ would_block)
      ⊎ (r ≡ end_of_stream)
      ⊎ (r ≡ recv_failed)
recv-cases (received xs) = inl (xs, refl)
recv-cases would_block = inr (inl refl)
recv-cases end_of_stream = inr (inr (inl refl))
recv-cases recv_failed = inr (inr (inr refl))

module _ {W : Type 0} {k : Kernel W} (ds : Descriptors k) (base : ℕ → Bool) where
  open ds use {is_open}

  pub receive-Tidy :
      (max_len : ℕ) (s : Socket) (w : W)
      → Tidy ds base s w
      → Tidy ds base (receive k max_len (s, w)).1.0 (receive k max_len (s, w)).1.1
  unfolding receive
  receive-Tidy max_len s w t =
      let kept = Tidy-keep ds base s (ds.recv_keeps s.fd max_len w) t in
      elim (Bool-cases s.connected) [
        | inl on ↦ elim (recv-cases (k.recv s.fd max_len w).0) [
          | inl (xs, e) ↦ rw (on, e, receive) kept
          | inr (inl e) ↦ rw (on, e, receive) kept
          | inr (inr (inl e)) ↦ rw (on, e, receive) (Tidy-flag ds base s false kept)
          | inr (inr (inr e)) ↦ rw (on, e, receive) (Tidy-flag ds base s false kept)
        ]
        | inr off ↦ rw (off, receive) (Tidy-flag ds base s false t)
      ]

  pub send_subscription-Tidy :
      (symbol_ids : List ℕ) (s : Socket) (w : W)
      → Tidy ds base s w
      → Tidy ds base
          (send_subscription k symbol_ids (s, w)).1.0
          (send_subscription k symbol_ids (s, w)).1.1
  unfolding send_subscription
  send_subscription-Tidy symbol_ids s w t = elim (Bool-cases s.connected) [
    | inl on ↦
        rw (on, send_subscription)
          (Tidy-flag ds base s true (Tidy-keep ds base s (ds.send_keeps s.fd _ w) t))
    | inr off ↦ rw (off, send_subscription) (Tidy-flag ds base s false t)
  ]

  pub disconnect-Tidy :
      (s : Socket) (w : W)
      → Tidy ds base s w
      → Tidy ds base (disconnect k (s, w)).0 (disconnect k (s, w)).1
  unfolding disconnect
  disconnect-Tidy s w t =
      close_epoll-Tidy ds base _ _
        (close_fd-Tidy ds base (record s { connected = false }) w (Tidy-flag ds base s false t)).0

  pub use_once-Tidy :
      (u : Use) (s : Socket) (w : W)
      → Tidy ds base s w
      → Tidy ds base (use_once k u (s, w)).0 (use_once k u (s, w)).1
  unfolding use_once
  use_once-Tidy (use_connect host port timeout_ms) s w t =
      unfold connect in
      do_connect-Tidy ds base timeout_ms (record s { host = host; port = port }) w
        (record { only = t.only; own = t.own; distinct = t.distinct })
  use_once-Tidy (use_receive max_len) s w t = receive-Tidy max_len s w t
  use_once-Tidy (use_send symbol_ids) s w t = send_subscription-Tidy symbol_ids s w t
  use_once-Tidy (use_wait timeout_ms) s w t =
      unfold wait_for_data in Tidy-keep ds base s (ds.epoll_wait_keeps s.epoll_fd timeout_ms w) t
  use_once-Tidy use_disconnect s w t = disconnect-Tidy s w t
  use_once-Tidy (use_nodelay enable) s w t =
      unfold set_tcp_nodelay in Tidy-keep ds base s (ds.set_option_keeps s.fd tcp_nodelay _ w) t
  use_once-Tidy (use_buffer_size bytes) s w t =
      unfold set_recv_buffer_size in
      Tidy-keep ds base s (ds.set_option_keeps s.fd recv_buffer _ w) t
  use_once-Tidy (use_priority level) s w t =
      unfold set_socket_priority in
      Tidy-keep ds base s (ds.set_option_keeps s.fd priority level w) t

  use_all-Tidy :
      (us : List Use) (s : Socket) (w : W)
      → Tidy ds base s w
      → Tidy ds base (use_all k us (s, w)).0 (use_all k us (s, w)).1
  unfolding use_all
  use_all-Tidy [] s w t = t
  use_all-Tidy (u ∷ us) s w t = use_all-Tidy us _ _ (use_once-Tidy u s w t)

-- After the last step of `disconnect` both descriptors are -1.
pub disconnect_closed :
    {W : Type 0} (k : Kernel W) (s : Socket) (w : W) (d : ℕ)
    → owns (disconnect k (s, w)).0 d ≡ false
unfolding disconnect close_fd close_epoll
disconnect_closed k s w d = elim (Option-cases s.fd) [
  | inl e ↦ elim (Option-cases s.epoll_fd) [
    | inl f ↦ rw (e, f, disconnect) (ground arith)
    | inr (a, f) ↦ rw (e, f, disconnect) (ground arith)
  ]
  | inr (a, e) ↦ elim (Option-cases s.epoll_fd) [
    | inl f ↦ rw (e, f, disconnect) (ground arith)
    | inr (b, f) ↦ rw (e, f, disconnect) (ground arith)
  ]
]

-- A socket leaks no descriptor. Whatever is done with it from the constructor on, in whatever order
-- and whatever the system calls return: the process has open just what it had before and the
-- descriptors that the socket holds, and after the destructor just what it had before.
pub use_all_no_leak :
    {W : Type 0} (k : Kernel W) (ds : Descriptors k) (us : List Use) (w : W) (d : ℕ)
    → let (s, w1) = use_all k us (init, w) in
      (ds.is_open w1 d ≡ (ds.is_open w d || owns s d))
      × (ds.is_open (disconnect k (s, w1)).1 d ≡ ds.is_open w d)
use_all_no_leak k ds us w d =
    let t =
      use_all-Tidy ds (ds.is_open w) us init w
        (record { only = λ e. ground arith; own = λ e h. cc; distinct = λ e h. cc }) in
    let s = (use_all k us (init, w)).0 in
    let w1 = (use_all k us (init, w)).1 in
    let closed = disconnect-Tidy ds (ds.is_open w) s w1 t in
    (t.only d, closed.only d ∙ rw (disconnect_closed k s w1 d) (ground arith))
