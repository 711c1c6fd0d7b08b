-- ===== src/Server/Listener/Release.antt =====
-- What `start` opens, the destructor closes.
use mathlib.Core.Path.{subst}
use market_data_handle.Prelude.{
  ℕ, ◌≡◌, ◌≢◌, ◌⊎◌, refl, ◌∙◌, Bool, true, false, Option, none, some, ◌||◌, inl, inr, arith,
  Option-cases, Bool-cases,
}
use market_data_handle.Client.Kernel.{Opens}
use market_data_handle.Client.Socket.Tidy.{is_fd}
use market_data_handle.Server.Listener.{
  ServerKernel, ServerDescriptors, StartError, Listener, init, reuse_addr, reuse_port,
  set_nonblocking, start_epoll, start_listening, start, destroy,
}

-- Success and running, or an exception and not running.
abbrev pub Outcome : Option StartError → Listener → Type 0
Outcome err l = ((err ≡ none) × (l.running ≡ true)) ⊎ ((err ≢ none) × (l.running ≡ false))

module _ {W : Type 0} {k : ServerKernel W} (ds : ServerDescriptors k) (base : ℕ → Bool) where
  open ds use {is_open}

  -- Open are those of `base` and the simulator's own, which are others.
  pub record Held (l : Listener) (w : W) : Type 0 where
    pub only : (d : ℕ) → is_open w d ≡ (base d || is_fd l.server_fd d || is_fd l.epoll_fd d)
    pub own : (d : ℕ) → (is_fd l.server_fd d || is_fd l.epoll_fd d) ≡ true → base d ≡ false

  abbrev pub Ends : Option StartError × (Listener × W) → Type 0
  Ends (err, (l, w)) = Held l w × Outcome err l

  Held-keep : (l : Listener) {w v : W} → ((d : ℕ) → is_open v d ≡ is_open w d) → Held l w → Held l v
  Held-keep l keeps h = record { only = λ d. keeps d ∙ h.only d; own = h.own }

  set_nonblocking_keeps :
      (fd : ℕ) (w : W) (d : ℕ) → is_open (set_nonblocking k fd w).1 d ≡ is_open w d
  unfolding set_nonblocking
  set_nonblocking_keeps fd w d = elim (Option-cases (k.get_flags fd w).0) [
    | inl e ↦ rw (e, set_nonblocking) (ds.get_flags_keeps fd w d)
    | inr (f, e) ↦ rw (e, set_nonblocking) (ds.set_flags_keeps fd _ _ d ∙ ds.get_flags_keeps fd w d)
  ]

  start_epoll-Ends :
      (fd : ℕ) (l : Listener) (w : W)
      → l.epoll_fd ≡ none
      → l.running ≡ false
      → Held l w
      → Ends (start_epoll k fd (l, w))
  unfolding start_epoll
  start_epoll-Ends fd l w empty off h = elim (Option-cases (k.epoll_create w).0) [
    | inl failed ↦
        let opens =
          subst (λ o. Opens is_open w o (k.epoll_create w).1) failed (ds.epoll_create_opens w) in
        rw (failed, start_epoll) (Held-keep l opens h, inr (λ e. cc, off))
    | inr (e, made) ↦
        let (new, opens) =
          subst (λ o. Opens is_open w o (k.epoll_create w).1) made (ds.epoll_create_opens w) in
        let missing : (d : ℕ) → is_fd l.epoll_fd d ≡ false = λ d. rw empty refl in
        rw (made, start_epoll)
          (
            record {
              only = λ d. ground (
                arith,
                ds.epoll_add_keeps e fd (k.epoll_create w).1 d,
                opens d,
                h.only d,
                missing d,
              );
              own = λ d. ground (arith, new, h.only d, h.own d, missing d);
            },
            inl (refl, refl),
          )
  ]

  start_listening-Ends :
      (fd : ℕ) (l : Listener) (w : W)
      → l.epoll_fd ≡ none
      → l.running ≡ false
      → Held l w
      → Ends (start_listening k fd (l, w))
  unfolding start_listening
  start_listening-Ends fd l w empty off h =
      let w1 = (k.set_option fd reuse_port 1 (k.set_option fd reuse_addr 1 w).1).1 in
      let bound = k.bind fd l.port w1 in
      let heard = k.listen fd 128 bound.1 in
      let free = set_nonblocking k fd heard.1 in
      let h1 =
        Held-keep l
          (λ d.
            ds.bind_keeps fd l.port w1 d
            ∙ ds.set_option_keeps fd reuse_port 1 _ d
            ∙ ds.set_option_keeps fd reuse_addr 1 w d)
          h in
      let h2 = Held-keep l (ds.listen_keeps fd 128 bound.1) h1 in
      let h3 = Held-keep l (set_nonblocking_keeps fd heard.1) h2 in
      elim (Bool-cases bound.0) [
        | inr e ↦ rw (e, start_listening) (h1, inr (λ p. cc, off))
        | inl b ↦ elim (Bool-cases heard.0) [
          | inr e ↦ rw (b, e, start_listening) (h2, inr (λ p. cc, off))
          | inl c ↦ elim (Bool-cases free.0) [
            | inr e ↦ rw (b, c, e, start_listening) (h3, inr (λ p. cc, off))
            | inl f ↦ rw (b, c, f, start_listening) (start_epoll-Ends fd l free.1 empty off h3)
          ]
        ]
      ]

  pub start-Ends :
      (l : Listener) (w : W)
      → l.server_fd ≡ none
      → l.epoll_fd ≡ none
      → l.running ≡ false
      → Held l w
      → Ends (start k (l, w))
  unfolding start
  start-Ends l w closed empty off h =
      let missing : (d : ℕ) → is_fd l.server_fd d ≡ false = λ d. rw closed refl in
      let gone : (d : ℕ) → is_fd l.epoll_fd d ≡ false = λ d. rw empty refl in
      elim (Option-cases (k.socket w).0) [
        | inl failed ↦
            let opens = subst (λ o. Opens is_open w o (k.socket w).1) failed (ds.socket_opens w) in
            rw (failed, start)
              (
                record {
                  only = λ d. ground (arith, opens d, h.only d, missing d);
                  own = λ d. ground (arith, h.own d, missing d);
                },
                inr (λ p. cc, off),
              )
        | inr (fd, made) ↦
            let (new, opens) =
              subst (λ o. Opens is_open w o (k.socket w).1) made (ds.socket_opens w) in
            rw (made, start)
              (start_listening-Ends fd (record l { server_fd = some fd }) (k.socket w).1 empty off
                (record {
                  only = λ d. ground (arith, opens d, h.only d, missing d, gone d);
                  own = λ d. ground (arith, new, h.only d, h.own d, missing d, gone d);
                }))
      ]

  pub destroy_closes :
      (l : Listener) (w : W) → Held l w → (d : ℕ) → is_open (destroy k (l, w)) d ≡ base d
  unfolding destroy
  destroy_closes l w h d = elim (Option-cases l.server_fd) [
    | inl e ↦ elim (Option-cases l.epoll_fd) [
      | inl f ↦ ground (arith, h.only d, e, f)
      | inr (b, f) ↦ ground (arith, h.only d, h.own d, e, f, ds.close_closes b w d)
    ]
    | inr (a, e) ↦ elim (Option-cases l.epoll_fd) [
      | inl f ↦ ground (arith, h.only d, h.own d, e, f, ds.close_closes a w d)
      | inr (b, f) ↦
          ground (
            arith,
            h.only d,
            h.own d,
            e,
            f,
            ds.close_closes a w d,
            ds.close_closes b (k.close a w) d,
          )
    ]
  ]

-- From the constructor on, whatever the system calls return: `start` ends with the simulator running,
-- or in an exception with it not running; what the process has open more is what the simulator holds,
-- and after the destructor just what was open before is open.
pub start_no_leak :
    {W : Type 0} (k : ServerKernel W) (ds : ServerDescriptors k) (port : ℕ) (w : W) (d : ℕ)
    → let (err, (l, w1)) = start k (init port, w) in
      Outcome err l
      × (ds.is_open w1 d ≡ (ds.is_open w d || is_fd l.server_fd d || is_fd l.epoll_fd d))
      × (ds.is_open (destroy k (l, w1)) d ≡ ds.is_open w d)
start_no_leak k ds port w d =
    let fresh : Held ds (ds.is_open w) (init port) w = record {
      only = λ e. ground arith;
      own = λ e h. cc;
    } in
    let (held, outcome) = start-Ends ds (ds.is_open w) (init port) w refl refl refl fresh in
    (outcome, held.only d, destroy_closes ds (ds.is_open w) _ _ held d)
