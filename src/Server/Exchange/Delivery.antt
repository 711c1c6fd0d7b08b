-- ===== src/Server/Exchange/Delivery.antt =====
-- `broadcast_message` of the exchange: what each client has got when it returns.
use native.Mathlib.Decide.{ℕ_discrete}
use market_data_handle.Prelude.{
  NoDup, member, member-erase, ℕ, ◌≡◌, refl, ap, ◌∙◌, true, false, List, [], ◌∷◌, ◌++◌, ◌⊎◌, inl,
  inr, length, take, arith, if◌then◌else◌, Bool-cases,
}
use market_data_handle.Server.Exchange.{
  TickSource, SendResult, Broadcast, Exchange, send_loop, broadcast_loop, note_end,
  handle_client_disconnect, disconnect_all, broadcast_message,
}
use market_data_handle.Server.Exchange.Send.{
  Effect, send_loop-Sent, Reached, note_end-net, note_end_marks, broadcast_loop_keeps,
  broadcast_loop_untouched,
}

-- The log of a client has gained the whole message, or a first part of it, and then the client is a
-- slow one or none any more.
abbrev pub IsServed : {G : Type 0} → ℕ → List ℕ → (ℕ → List ℕ) → (ℕ → List ℕ) → Exchange G → Type 0
IsServed fd bytes before after y =
    (count : ℕ) × (after fd ≡ before fd ++ take count bytes)
    × ((count ≡ length bytes) ⊎ ((member fd y.slow_clients ≡ true) ⊎ (member fd y.clients ≡ false)))

module _ {G N : Type 0} (src : TickSource G) (send : ℕ → List ℕ → N → SendResult × N)
    (log : N → ℕ → List ℕ)
    (network : (fd b : ℕ) (bs : List ℕ) (net : N)
      → let (r, after) = send fd (b ∷ bs) net in Effect fd (b ∷ bs) (log net) (log after) r) where
  broadcast_loop-Reached :
      (bytes fds : List ℕ) (fd : ℕ) (b : Broadcast N)
      → NoDup fds
      → member fd fds ≡ true
      → let after = broadcast_loop src send bytes fds b in
        Reached fd bytes (log b.net) (log after.net) after
  unfolding broadcast_loop
  broadcast_loop-Reached bytes [] fd b nd here = absurd (ground arith)
  broadcast_loop-Reached bytes (f ∷ fds) fd b (fresh, nd) here =
      let step = send_loop src send (length bytes) f bytes b.net in
      let next : Broadcast N = note_end f step.0 step.1 b in
      let sent = send_loop-Sent src send log network (length bytes) f bytes b.net (omega arith) in
      elim (ℕ_discrete fd f) [
        | yes e ↦
            let gone : member fd fds ≡ false = rw e fresh in
            let (slow_on, drop_on) = broadcast_loop_keeps src send log network bytes fds fd next in
            let got : log step.1 fd ≡ log b.net fd ++ take sent.count bytes = rw e sent.gained in
            record {
              count = sent.count;
              gained =
                  broadcast_loop_untouched src send log network bytes fds fd next gone
                  ∙ ap (λ n. log n fd) (note_end-net f step.0 step.1 b)
                  ∙ got;
              marked = elim (note_end_marks f step.0 step.1 b) [
                | inl done ↦ inl (sent.whole done)
                | inr (inl h) ↦ inr (inl (slow_on (rw e h)))
                | inr (inr h) ↦ inr (inr (drop_on (rw e h)))
              ];
            }
        | no ne ↦
            let later = broadcast_loop-Reached bytes fds fd next nd (ground arith) in
            record {
              count = later.count;
              gained =
                  later.gained
                  ∙ ap (λ t. t ++ take later.count bytes)
                      (ap (λ n. log n fd) (note_end-net f step.0 step.1 b) ∙ sent.others fd ne);
              marked = later.marked;
            }
      ]

  disconnect_all-clients :
      (ds : List ℕ) (x : Exchange G) (y : ℕ)
      → let after = disconnect_all ds x in
        (member y after.clients ≡ (if member y ds then false else member y x.clients))
        × (member y after.slow_clients ≡ (if member y ds then false else member y x.slow_clients))
  unfolding disconnect_all handle_client_disconnect
  disconnect_all-clients [] x y = (refl, refl)
  disconnect_all-clients (d ∷ ds) x y =
      let (here, there) = disconnect_all-clients ds (handle_client_disconnect d x) y in
      (
        ground (arith, here, member-erase d y x.clients),
        ground (arith, there, member-erase d y x.slow_clients),
      )

  -- After a broadcast to a set of clients, each client has got the whole message behind what it got
  -- before, or only a first part of it, and then it is a slow client or no client any more; whoever
  -- is no client has got nothing.
  pub broadcast_message-log :
      (bytes : List ℕ) (x : Exchange G) (net : N) (fd : ℕ)
      → NoDup x.clients
      → let (y, after) = broadcast_message src send bytes (x, net) in
        if member fd x.clients
        then IsServed fd bytes (log net) (log after) y
        else (log after fd ≡ log net fd)
  unfolding broadcast_message
  broadcast_message-log bytes x net fd nd =
      let b : Broadcast N = record { slow_fds = x.slow_clients; to_drop = []; net = net } in
      let b' = broadcast_loop src send bytes x.clients b in
      let (left, slow_left) =
        disconnect_all-clients b'.to_drop (record x { slow_clients = b'.slow_fds }) fd in
      elim (Bool-cases (member fd x.clients)) [
        | inl here ↦ rw here (
            let reached = broadcast_loop-Reached bytes x.clients fd b nd here in
            (
              reached.count,
              reached.gained,
              elim reached.marked [
                | inl whole ↦ inl whole
                | inr (inl slowed) ↦ elim (Bool-cases (member fd b'.to_drop)) [
                  | inl dropped ↦ inr (inr (left ∙ rw dropped refl))
                  | inr stays ↦ inr (inl (slow_left ∙ rw stays slowed))
                ]
                | inr (inr dropped) ↦ inr (inr (left ∙ rw dropped refl))
              ],
            ))
        | inr gone ↦
            rw gone (broadcast_loop_untouched src send log network bytes x.clients fd b gone)
      ]
