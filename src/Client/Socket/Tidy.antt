-- ===== src/Client/Socket/Tidy.antt =====
-- The descriptors that a socket holds, against those that the process has open, through the stages
-- of `do_connect`.
use mathlib.Core.Path.{subst}
use market_data_handle.Prelude.{
  ℕ, ◌*◌, zero, suc, ◌≡◌, ◌⊎◌, refl, ◌∙◌, Bool, true, false, Option, none, some, ◌==◌, ◌||◌, arith,
  Option-cases, Bool-cases, inl, inr,
}
use market_data_handle.Client.Kernel.{
  Fd, Kernel, Descriptors, Opens, tcp_nodelay, recv_buffer, ctl_add, ctl_mod, writable, readable,
}
use market_data_handle.Client.Socket.{
  Socket, set_tcp_nodelay, set_recv_buffer_size, close_fd, close_epoll, give_up, check_connect,
  await_connect, use_epoll, open_connection, do_connect,
}

abbrev pub is_fd : Fd → ℕ → Bool
is_fd none d = false
is_fd (some fd) d = fd == d

abbrev pub owns : Socket → ℕ → Bool
owns s d = is_fd s.fd d || is_fd s.epoll_fd d

-- What `epoll_wait` can return.
pub wait-cases : (n : Option ℕ) → (n ≡ none) ⊎ (n ≡ some 0) ⊎ ((m : ℕ) × (n ≡ some (suc m)))
wait-cases none = inl refl
wait-cases (some zero) = inr (inl refl)
wait-cases (some (suc m)) = inr (inr (m, refl))

module _ {W : Type 0} {k : Kernel W} (ds : Descriptors k) (base : ℕ → Bool) where
  open ds use {is_open}

  -- Open are those of `base` and the socket's own, which are others and differ from one another.
  pub record Tidy (s : Socket) (w : W) : Type 0 where
    pub only : (d : ℕ) → is_open w d ≡ (base d || owns s d)
    pub own : (d : ℕ) → owns s d ≡ true → base d ≡ false
    pub distinct : (d : ℕ) → is_fd s.fd d ≡ true → is_fd s.epoll_fd d ≡ false

  pub Tidy-keep :
      (s : Socket) {w w' : W} → ((d : ℕ) → is_open w' d ≡ is_open w d) → Tidy s w → Tidy s w'
  Tidy-keep s keeps t = record {
    only = λ d. keeps d ∙ t.only d;
    own = t.own;
    distinct = t.distinct;
  }

  -- The flag plays no part.
  pub Tidy-flag : (s : Socket) (b : Bool) {w : W} → Tidy s w → Tidy (record s { connected = b }) w
  Tidy-flag s b t = record { only = t.only; own = t.own; distinct = t.distinct }

  close_fd_own :
      (s : Socket) (w : W) (fd : ℕ)
      → s.fd ≡ some fd
      → Tidy s w
      → Tidy (record s { fd = none }) (k.close fd w)
  close_fd_own s w fd e t =
      let mine : (d : ℕ) → is_fd s.fd d ≡ (fd == d) = λ d. rw e refl in
      record {
        only = λ d. ground (arith, ds.close_closes fd w d, t.only d, t.own d, t.distinct d, mine d);
        own = λ d. ground (arith, t.own d);
        distinct = λ d. ground arith;
      }

  close_epoll_own :
      (s : Socket) (w : W) (e : ℕ)
      → s.epoll_fd ≡ some e
      → Tidy s w
      → Tidy (record s { epoll_fd = none }) (k.close e w)
  close_epoll_own s w e eq t =
      let mine : (d : ℕ) → is_fd s.epoll_fd d ≡ (e == d) = λ d. rw eq refl in
      record {
        only = λ d. ground (arith, ds.close_closes e w d, t.only d, t.own d, t.distinct d, mine d);
        own = λ d. ground (arith, t.own d);
        distinct = λ d. ground arith;
      }

  take_fd :
      (s : Socket) (w w' : W) (fd : ℕ)
      → s.fd ≡ none
      → Opens is_open w (some fd) w'
      → Tidy s w
      → Tidy (record s { fd = some fd }) w'
  take_fd s w w' fd e (new, opened) t =
      let empty : (d : ℕ) → is_fd s.fd d ≡ false = λ d. rw e refl in
      record {
        only = λ d. ground (arith, opened d, t.only d, empty d);
        own = λ d. ground (arith, new, t.only d, t.own d, empty d);
        distinct = λ d. ground (arith, new, t.only d);
      }

  take_epoll :
      (s : Socket) (w w' : W) (e : ℕ)
      → s.epoll_fd ≡ none
      → Opens is_open w (some e) w'
      → Tidy s w
      → Tidy (record s { epoll_fd = some e }) w'
  take_epoll s w w' e eq (new, opened) t =
      let empty : (d : ℕ) → is_fd s.epoll_fd d ≡ false = λ d. rw eq refl in
      record {
        only = λ d. ground (arith, opened d, t.only d, empty d);
        own = λ d. ground (arith, new, t.only d, t.own d, empty d);
        distinct = λ d. ground (arith, new, t.only d);
      }

  pub close_fd-Tidy :
      (s : Socket) (w : W)
      → Tidy s w
      → Tidy (close_fd k (s, w)).0 (close_fd k (s, w)).1 × ((close_fd k (s, w)).0.fd ≡ none)
  unfolding close_fd
  close_fd-Tidy s w t = elim (Option-cases s.fd) [
    | inl e ↦ rw (e, close_fd) (t, e)
    | inr (fd, e) ↦ rw (e, close_fd) (close_fd_own s w fd e t, refl)
  ]

  pub close_epoll-Tidy :
      (s : Socket) (w : W) → Tidy s w → Tidy (close_epoll k (s, w)).0 (close_epoll k (s, w)).1
  unfolding close_epoll
  close_epoll-Tidy s w t = elim (Option-cases s.epoll_fd) [
    | inl e ↦ rw (e, close_epoll) t
    | inr (fd, e) ↦ rw (e, close_epoll) (close_epoll_own s w fd e t)
  ]

  -- The stages of `do_connect`, from the last to the first; `d` is the new descriptor.
  check_connect-Tidy :
      (d e : ℕ) (s : Socket) (w : W)
      → s.fd ≡ some d
      → Tidy s w
      → Tidy (check_connect k d e (s, w)).1.0 (check_connect k d e (s, w)).1.1
  unfolding check_connect give_up
  check_connect-Tidy d e s w own t =
      let kept = Tidy-keep s (ds.socket_error_keeps d w) t in
      elim (Bool-cases ((k.socket_error d w).0 == 0)) [
        | inl fine ↦
            rw (fine, check_connect)
              (Tidy-flag s true (Tidy-keep s (ds.epoll_ctl_keeps e ctl_mod d readable _) kept))
        | inr bad ↦ rw (bad, check_connect) (close_fd_own s _ d own kept)
      ]

  await_connect-Tidy :
      (timeout_ms d e : ℕ) (s : Socket) (w : W)
      → s.fd ≡ some d
      → Tidy s w
      → Tidy (await_connect k timeout_ms d e (s, w)).1.0 (await_connect k timeout_ms d e (s, w)).1.1
  unfolding await_connect give_up
  await_connect-Tidy timeout_ms d e s w own t =
      let added = Tidy-keep s (ds.epoll_ctl_keeps e ctl_add d writable w) t in
      let waited = Tidy-keep s (ds.epoll_wait_keeps (some e) timeout_ms _) added in
      elim (wait-cases (k.epoll_wait (some e) timeout_ms (k.epoll_ctl e ctl_add d writable w)).0) [
        | inl none' ↦ rw (none', await_connect) (close_fd_own s _ d own waited)
        | inr (inl zero') ↦ rw (zero', await_connect) (close_fd_own s _ d own waited)
        | inr (inr (m, ready)) ↦ rw (ready, await_connect) (check_connect-Tidy d e s _ own waited)
      ]

  use_epoll-Tidy :
      (timeout_ms d : ℕ) (s : Socket) (w : W)
      → s.fd ≡ some d
      → Tidy s w
      → Tidy (use_epoll k timeout_ms d (s, w)).1.0 (use_epoll k timeout_ms d (s, w)).1.1
  unfolding use_epoll
  use_epoll-Tidy timeout_ms d s w own t = elim (Option-cases s.epoll_fd) [
    | inr (e, eq) ↦ rw (eq, use_epoll) (await_connect-Tidy timeout_ms d e s w own t)
    | inl eq ↦ elim (Option-cases (k.epoll_create w).0) [
      | inl failed ↦
          let opens =
            subst (λ o. Opens is_open w o (k.epoll_create w).1) failed (ds.epoll_create_opens w) in
          rw (eq, failed, use_epoll) (Tidy-keep s opens t)
      | inr (e, made) ↦
          let opens =
            subst (λ o. Opens is_open w o (k.epoll_create w).1) made (ds.epoll_create_opens w) in
          rw (eq, made, use_epoll)
            (await_connect-Tidy timeout_ms d e (record s { epoll_fd = some e }) _ own
              (take_epoll s w _ e eq opens t))
    ]
  ]

  open_connection-Tidy :
      (timeout_ms d : ℕ) (s : Socket) (w : W)
      → s.fd ≡ some d
      → Tidy s w
      → Tidy (open_connection k timeout_ms d (s, w)).1.0 (open_connection k timeout_ms d (s, w)).1.1
  unfolding open_connection give_up set_tcp_nodelay set_recv_buffer_size
  open_connection-Tidy timeout_ms d s w own t =
      let w1 = (set_tcp_nodelay k true (s, w)).1 in
      let w2 = (set_recv_buffer_size k (4 * 1024 * 1024) (s, w1)).1 in
      let t1 : Tidy s w1 = Tidy-keep s (ds.set_option_keeps s.fd tcp_nodelay 1 w) t in
      let t2 : Tidy s w2 = Tidy-keep s (ds.set_option_keeps s.fd recv_buffer _ w1) t1 in
      elim (Option-cases (k.parse_address s.host)) [
        | inl bad ↦ rw (bad, open_connection) (close_fd_own s w2 d own t2)
        | inr (a, good) ↦
            let t3 = Tidy-keep s (ds.begin_connect_keeps d a s.port w2) t2 in
            elim (Bool-cases (k.begin_connect d a s.port w2).0) [
              | inl begun ↦
                  rw (good, begun, open_connection) (use_epoll-Tidy timeout_ms d s _ own t3)
              | inr refused ↦ rw (good, refused, open_connection) (close_fd_own s _ d own t3)
            ]
      ]

  pub do_connect-Tidy :
      (timeout_ms : ℕ) (s : Socket) (w : W)
      → Tidy s w
      → Tidy (do_connect k timeout_ms (s, w)).1.0 (do_connect k timeout_ms (s, w)).1.1
  unfolding do_connect
  do_connect-Tidy timeout_ms s w t =
      let s1 = (close_fd k (s, w)).0 in
      let w1 = (close_fd k (s, w)).1 in
      let (t1, empty) = close_fd-Tidy s w t in
      elim (Option-cases (k.socket w1).0) [
        | inl failed ↦
            let opens =
              subst (λ o. Opens is_open w1 o (k.socket w1).1) failed (ds.socket_opens w1) in
            rw (failed, do_connect) (Tidy-keep s1 opens t1)
        | inr (d, made) ↦
            let opens = subst (λ o. Opens is_open w1 o (k.socket w1).1) made (ds.socket_opens w1) in
            rw (made, do_connect)
              (open_connection-Tidy timeout_ms d (record s1 { fd = some d }) _ refl
                (take_fd s1 w1 _ d empty opens t1))
      ]
