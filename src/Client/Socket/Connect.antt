-- ===== src/Client/Socket/Connect.antt =====
-- What `connect` leaves behind, on every path.
use mathlib.Core.Path.{subst}
use market_data_handle.Prelude.{
  ℕ, ◌*◌, ◌≡◌, ◌≢◌, ◌⊎◌, refl, Bool, true, false, none, some, List, ◌==◌, Option-cases, Bool-cases,
  inl, inr,
}
use market_data_handle.Client.Kernel.{Kernel, ctl_add, writable}
use market_data_handle.Client.Socket.{
  Socket, set_tcp_nodelay, set_recv_buffer_size, close_fd, give_up, check_connect, await_connect,
  use_epoll, open_connection, do_connect, connect,
}
use market_data_handle.Client.Socket.Tidy.{wait-cases}

-- After success both descriptors stand and the socket is connected; after a failure one of them is
-- missing, and the flag is as before.
abbrev pub Settled : {W : Type 0} → Bool → Bool × (Socket × W) → Type 0
Settled before (true, (s, w)) = (s.connected ≡ true) × (s.fd ≢ none) × (s.epoll_fd ≢ none)
Settled before (false, (s, w)) = (s.connected ≡ before) × ((s.fd ≡ none) ⊎ (s.epoll_fd ≡ none))

module _ {W : Type 0} (k : Kernel W) where
  check_connect-Settled :
      (d e : ℕ) (s : Socket) (w : W)
      → s.fd ≡ some d
      → s.epoll_fd ≡ some e
      → Settled s.connected (check_connect k d e (s, w))
  unfolding check_connect give_up
  check_connect-Settled d e s w fd ep = elim (Bool-cases ((k.socket_error d w).0 == 0)) [
    | inl fine ↦ rw (fine, check_connect) (refl, λ h. cc, λ h. cc)
    | inr bad ↦ rw (bad, check_connect) (refl, inl refl)
  ]

  await_connect-Settled :
      (timeout_ms d e : ℕ) (s : Socket) (w : W)
      → s.fd ≡ some d
      → s.epoll_fd ≡ some e
      → Settled s.connected (await_connect k timeout_ms d e (s, w))
  unfolding await_connect give_up
  await_connect-Settled timeout_ms d e s w fd ep =
      elim (wait-cases (k.epoll_wait (some e) timeout_ms (k.epoll_ctl e ctl_add d writable w)).0) [
        | inl failed ↦ rw (failed, await_connect) (refl, inl refl)
        | inr (inl late) ↦ rw (late, await_connect) (refl, inl refl)
        | inr (inr (m, ready)) ↦ rw (ready, await_connect) (check_connect-Settled d e s _ fd ep)
      ]

  use_epoll-Settled :
      (timeout_ms d : ℕ) (s : Socket) (w : W)
      → s.fd ≡ some d
      → Settled s.connected (use_epoll k timeout_ms d (s, w))
  unfolding use_epoll
  use_epoll-Settled timeout_ms d s w fd = elim (Option-cases s.epoll_fd) [
    | inr (e, ep) ↦ rw (ep, use_epoll) (await_connect-Settled timeout_ms d e s w fd ep)
    | inl ep ↦ elim (Option-cases (k.epoll_create w).0) [
      | inl failed ↦ rw (ep, failed, use_epoll) (refl, inr ep)
      | inr (e, made) ↦
          rw (ep, made, use_epoll)
            (await_connect-Settled timeout_ms d e (record s { epoll_fd = some e }) _ fd refl)
    ]
  ]

  open_connection-Settled :
      (timeout_ms d : ℕ) (s : Socket) (w : W)
      → s.fd ≡ some d
      → Settled s.connected (open_connection k timeout_ms d (s, w))
  unfolding open_connection give_up
  open_connection-Settled timeout_ms d s w fd =
      let w1 = (set_tcp_nodelay k true (s, w)).1 in
      let w2 = (set_recv_buffer_size k (4 * 1024 * 1024) (s, w1)).1 in
      elim (Option-cases (k.parse_address s.host)) [
        | inl bad ↦ rw (bad, open_connection) (refl, inl refl)
        | inr (a, good) ↦ elim (Bool-cases (k.begin_connect d a s.port w2).0) [
          | inl begun ↦ rw (good, begun, open_connection) (use_epoll-Settled timeout_ms d s _ fd)
          | inr refused ↦ rw (good, refused, open_connection) (refl, inl refl)
        ]
      ]

  close_fd_lem :
      (s : Socket) (w : W)
      → ((close_fd k (s, w)).0.fd ≡ none) × ((close_fd k (s, w)).0.connected ≡ s.connected)
  unfolding close_fd
  close_fd_lem s w = elim (Option-cases s.fd) [
    | inl e ↦ rw (e, close_fd) (e, refl)
    | inr (fd, e) ↦ rw (e, close_fd) (refl, refl)
  ]

  do_connect-Settled :
      (timeout_ms : ℕ) (s : Socket) (w : W) → Settled s.connected (do_connect k timeout_ms (s, w))
  unfolding do_connect
  do_connect-Settled timeout_ms s w =
      let s1 = (close_fd k (s, w)).0 in
      let w1 = (close_fd k (s, w)).1 in
      let (empty, same) = close_fd_lem s w in
      elim (Option-cases (k.socket w1).0) [
        | inl failed ↦ rw (failed, do_connect) (same, inl empty)
        | inr (d, made) ↦
            rw (made, do_connect)
              (subst
                (λ b.
                  Settled b
                    (open_connection k timeout_ms d (record s1 { fd = some d }, (k.socket w1).1)))
                same (open_connection-Settled timeout_ms d (record s1 { fd = some d }) _ refl))
      ]

  -- `connect` succeeds only with both descriptors in place, and then the socket is connected; when it
  -- fails, one of them is missing, and the socket says that it is connected exactly if it said so
  -- before.
  pub connect-Settled :
      (host : List ℕ) (port timeout_ms : ℕ) (s : Socket) (w : W)
      → Settled s.connected (connect k host port timeout_ms (s, w))
  unfolding connect
  connect-Settled host port timeout_ms s w =
      do_connect-Settled timeout_ms (record s { host = host; port = port }) w
