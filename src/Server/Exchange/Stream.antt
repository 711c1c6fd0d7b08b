-- ===== src/Server/Exchange/Stream.antt =====
-- The stream that a client gets from a run of ticks, when the network takes all that is sent.
use mathlib.Core.Path.{subst}
use native.Mathlib.Decide.{ℕ_discrete}
use market_data_handle.Prelude.{
  NoDup, member, ℕ, zero, suc, ◌≤◌, ◌≡◌, refl, ap, ◌∙◌, true, List, [], ◌∷◌, ◌++◌, length, take,
  drop, arith, length-drop, take_all,
}
use market_data_handle.Server.Exchange.{
  TickSource, SendResult, accepted, finished, Broadcast, Exchange, send_loop, note_end,
  broadcast_loop, disconnect_all, broadcast_message,
}
use market_data_handle.Server.Exchange.Send.{Effect, send_loop-Sent, broadcast_loop_untouched}

module _ {G N : Type 0} (src : TickSource G) (send : ℕ → List ℕ → N → SendResult × N)
    (log : N → ℕ → List ℕ)
    (network : (fd b : ℕ) (bs : List ℕ) (net : N)
      → let (r, after) = send fd (b ∷ bs) net in Effect fd (b ∷ bs) (log net) (log after) r)
    (willing : (fd b : ℕ) (bs : List ℕ) (net : N)
      → (count : ℕ) × ((send fd (b ∷ bs) net).0 ≡ accepted count)) where
  send_loop_finished :
      (rounds fd : ℕ) (bs : List ℕ) (net : N)
      → length bs ≤ rounds
      → (send_loop src send rounds fd bs net).0 ≡ finished
  unfolding send_loop
  send_loop_finished rounds fd [] net le = refl
  send_loop_finished zero fd (b ∷ bs) net le = absurd (omega arith)
  send_loop_finished (suc rounds) fd (b ∷ bs) net le =
      let net' : N = (send fd (b ∷ bs) net).1 in
      let (n, e) = willing fd b bs net in
      let (pos, most, _, _) =
        subst (Effect fd (b ∷ bs) (log net) (log net')) e (network fd b bs net) in
      rw (e, send_loop)
        (send_loop_finished rounds fd (drop n (b ∷ bs)) net'
          (omega (arith, length-drop n (b ∷ bs))))

  broadcast_loop_willing :
      (bytes fds : List ℕ) (b : Broadcast N)
      → NoDup fds
      → let after = broadcast_loop src send bytes fds b in
        (after.slow_fds ≡ b.slow_fds)
        × (after.to_drop ≡ b.to_drop)
        × ((fd : ℕ) → member fd fds ≡ true → log after.net fd ≡ log b.net fd ++ bytes)
  unfolding broadcast_loop note_end
  broadcast_loop_willing bytes [] b nd = (refl, refl, λ fd here. absurd (ground arith))
  broadcast_loop_willing bytes (f ∷ fds) b (fresh, nd) =
      let step = send_loop src send (length bytes) f bytes b.net in
      let done : step.0 ≡ finished =
        send_loop_finished (length bytes) f bytes b.net (omega arith) in
      let sent = send_loop-Sent src send log network (length bytes) f bytes b.net (omega arith) in
      let next : Broadcast N = record b { net = step.1 } in
      let (slow_same, drop_same, later) = broadcast_loop_willing bytes fds next nd in
      let all : take sent.count bytes ≡ bytes =
        take_all sent.count bytes (omega (arith, sent.whole done)) in
      rw (done, broadcast_loop)
        (
          slow_same,
          drop_same,
          λ fd here. elim (ℕ_discrete fd f) [
            | yes e ↦
                broadcast_loop_untouched src send log network bytes fds fd next (rw e fresh)
                ∙ (rw e sent.gained)
                ∙ ap (λ t. log b.net fd ++ t) all
            | no ne ↦ later fd (ground arith) ∙ ap (λ t. t ++ bytes) (sent.others fd ne)
          ],
        )

  pub broadcast_message_willing :
      (bytes : List ℕ) (x : Exchange G) (net : N)
      → NoDup x.clients
      → (after : N) × (broadcast_message src send bytes (x, net) ≡ (x, after))
        × ((fd : ℕ) → member fd x.clients ≡ true → log after fd ≡ log net fd ++ bytes)
  unfolding broadcast_message disconnect_all
  broadcast_message_willing bytes x net nd =
      let b : Broadcast N = record { slow_fds = x.slow_clients; to_drop = []; net = net } in
      let (slow_same, drop_same, got) = broadcast_loop_willing bytes x.clients b nd in
      ((broadcast_loop src send bytes x.clients b).net, rw (slow_same, drop_same) refl, got)
