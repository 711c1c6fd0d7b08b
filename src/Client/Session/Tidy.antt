-- ===== src/Client/Session/Tidy.antt =====
-- The loops of `main` leave the descriptors of the process in order.
use market_data_handle.Prelude.{
  ℕ, zero, suc, Bool, true, false, ◌&&◌, Option, none, some, ltb, ◌==◌, if◌then◌else◌, Option-cases,
  Bool-cases, inl, inr, length, take, ◌∷◌, ◌+◌, ◌*◌, min, u32,
}
use market_data_handle.Client.{receive_block}
use market_data_handle.Client.Kernel.{Kernel, Descriptors}
use market_data_handle.Client.Socket.{
  Socket, Retry, RetryEnd, wait_for_data, connect, retry_loop, connect_with_retry, connect_timeout,
}
use market_data_handle.Client.Socket.Tidy.{Tidy, Tidy-keep, wait-cases}
use market_data_handle.Client.Socket.Descriptors.{
  receive-Tidy, send_subscription-Tidy, use_once-Tidy, use_once, use_wait, use_connect,
}
use market_data_handle.Client.Session.{
  Feed, Run, returned, reconnecting, fault, no_fuel, recv_buf_size, copied, receive_chunk,
  feed_buffer, drain, session, run_connection, main_loop, sym_ids,
}

module _ {W : Type 0} {k : Kernel W} (ds : Descriptors k) (base : ℕ → Bool) where
  abbrev pub IsTidy : Feed W → Type 0
  IsTidy σ = Tidy ds base σ.sock σ.world

  -- In order where the loop ends with a state.
  abbrev pub Orderly : Run W → Type 0
  Orderly (returned σ) = IsTidy σ
  Orderly (reconnecting σ) = IsTidy σ
  Orderly fault = Unit
  Orderly no_fuel = Unit

  Orderly-if : (b : Bool) (r q : Run W) → Orderly r → Orderly q → Orderly (if b then r else q)
  Orderly-if true r q h h' = h
  Orderly-if false r q h h' = h'

  Orderly-bind :
      (r : Run W) (f g : Feed W → Run W)
      → Orderly r
      → ((σ : Feed W) → IsTidy σ → Orderly (f σ))
      → ((σ : Feed W) → IsTidy σ → Orderly (g σ))
      → Orderly
          (elim r [ returned σ ↦ f σ | reconnecting σ ↦ g σ | fault ↦ fault | no_fuel ↦ no_fuel ])
  Orderly-bind (returned σ) f g h after again = after σ h
  Orderly-bind (reconnecting σ) f g h after again = again σ h
  Orderly-bind fault f g h after again = tt
  Orderly-bind no_fuel f g h after again = tt

  abbrev Kept : Option (Feed W) → Type 0
  Kept none = Unit
  Kept (some σ) = IsTidy σ

  Orderly-option :
      (o : Option (Feed W)) (f : Feed W → Run W)
      → Kept o
      → ((σ : Feed W) → IsTidy σ → Orderly (f σ))
      → Orderly (elim o [ none ↦ fault | some σ ↦ f σ ])
  Orderly-option none f h after = tt
  Orderly-option (some σ) f h after = after σ h

  feed_buffer-Kept :
      (clock : ℕ → ℕ) (n : ℕ) (σ : Feed W) → IsTidy σ → Kept (feed_buffer k clock n σ)
  unfolding feed_buffer
  feed_buffer-Kept clock n σ t =
      elim (Bool-cases (ltb recv_buf_size (copied (length σ.parser.buf) n))) [
        | inl far ↦ rw (far, feed_buffer) tt
        | inr near ↦
            elim (Option-cases (receive_block clock (σ.parser, σ.client) (take n σ.recv_buf))) [
              | inl e ↦ rw (near, e, feed_buffer) tt
              | inr (pc, e) ↦ rw (near, e, feed_buffer) t
            ]
      ]

  drain-Orderly :
      (clock : ℕ → ℕ) (fuel : ℕ) (σ : Feed W) → IsTidy σ → Orderly (drain k clock fuel σ)
  unfolding drain receive_chunk
  drain-Orderly clock zero σ t = tt
  drain-Orderly clock (suc fuel) σ t =
      let n = (receive_chunk k clock σ).0 in
      let τ = (receive_chunk k clock σ).1 in
      let kept : IsTidy τ = receive-Tidy ds base recv_buf_size σ.sock σ.world t in
      Orderly-if (ltb n 0) (reconnecting τ) _ kept (
        Orderly-if (n == 0) (returned τ) _ kept (
          Orderly-option (feed_buffer k clock n τ) (drain k clock fuel)
            (feed_buffer-Kept clock n τ kept) (drain-Orderly clock fuel)))

  session-Orderly :
      (clock : ℕ → ℕ) (running : W → Bool) (fuel : ℕ) (σ : Feed W)
      → IsTidy σ
      → Orderly (session k clock running fuel σ)
  unfolding session wait_for_data use_once
  session-Orderly clock running zero σ t = tt
  session-Orderly clock running (suc fuel) σ t =
      let ev = (wait_for_data k 100 (σ.sock, σ.world)).0 in
      let τ = record σ { world = (wait_for_data k 100 (σ.sock, σ.world)).1.1 } in
      let kept : IsTidy τ = use_once-Tidy ds base (use_wait 100) σ.sock σ.world t in
      let again = session-Orderly clock running fuel τ kept in
      let read =
        Orderly-bind (drain k clock fuel τ) (session k clock running fuel) reconnecting
          (drain-Orderly clock fuel τ kept) (session-Orderly clock running fuel) (λ υ h. h) in
      Orderly-if (running σ.world && σ.sock.connected) _ (reconnecting σ)
        (elim (wait-cases ev) [
          | inl e ↦ rw (e, session) kept
          | inr (inl e) ↦ rw (e, session) again
          | inr (inr (m, e)) ↦ rw (e, session) read
        ])
        t

  run_connection-Orderly :
      (clock : ℕ → ℕ) (running : W → Bool) (num_sym fuel : ℕ) (σ : Feed W)
      → IsTidy σ
      → Orderly (run_connection k clock running num_sym fuel σ)
  unfolding run_connection
  run_connection-Orderly clock running num_sym fuel σ t =
      session-Orderly clock running fuel _
        (send_subscription-Tidy ds base (sym_ids num_sym) σ.sock σ.world t)

  abbrev Settled : Option (RetryEnd W) → Type 0
  Settled none = Unit
  Settled (some e) = Tidy ds base e.state.0 e.state.1

  Settled-if :
      (b : Bool) (o p : Option (RetryEnd W)) → Settled o → Settled p → Settled (if b then o else p)
  Settled-if true o p h h' = h
  Settled-if false o p h h' = h'

  Settled-wait :
      (o : Option (RetryEnd W)) (ms : ℕ)
      → Settled o
      → Settled (elim o [ none ↦ none | some e ↦ some (record e { waits = ms ∷ e.waits }) ])
  Settled-wait none ms h = tt
  Settled-wait (some e) ms h = h

  retry_loop-Settled :
      (fuel : ℕ) (r : Retry) (attempt backoff : ℕ) (s : Socket) (w : W)
      → Tidy ds base s w
      → Settled (retry_loop k fuel r attempt backoff (s, w))
  unfolding retry_loop use_once
  retry_loop-Settled zero r attempt backoff s w t = tt
  retry_loop-Settled (suc fuel) r attempt backoff s w t =
      let tried = connect k r.host r.port connect_timeout (s, w) in
      let t1 : Tidy ds base tried.1.0 tried.1.1 =
        use_once-Tidy ds base (use_connect r.host r.port connect_timeout) s w t in
      let rested = Tidy-keep ds base tried.1.0 (ds.sleep_for_keeps backoff tried.1.1) t1 in
      let later =
        retry_loop-Settled fuel r (attempt + 1) (min (u32 (backoff * 2)) 30000) tried.1.0
          (k.sleep_for backoff tried.1.1) rested in
      Settled-if (ltb attempt r.max_retries) _ _
        (Settled-if tried.0 _ _ t1 (Settled-wait _ backoff later)) t

  Orderly-retry :
      (o : Option (RetryEnd W)) (f : RetryEnd W → Run W)
      → Settled o
      → ((e : RetryEnd W) → Tidy ds base e.state.0 e.state.1 → Orderly (f e))
      → Orderly (elim o [ none ↦ no_fuel | some e ↦ f e ])
  Orderly-retry none f h after = tt
  Orderly-retry (some e) f h after = after e h

  Orderly-ok :
      (b : Bool) (r q : Run W) → Orderly r → Orderly q → Orderly (elim b [ false ↦ r | true ↦ q ])
  Orderly-ok false r q h h' = h
  Orderly-ok true r q h h' = h'

  -- Whatever the loop over connections does, and wherever it ends with a state, the descriptors of
  -- the process are in order.
  pub main_loop-Orderly :
      (clock : ℕ → ℕ) (running : W → Bool) (fuel : ℕ) (r : Retry) (num_sym : ℕ) (σ : Feed W)
      → IsTidy σ
      → Orderly (main_loop k clock running fuel r num_sym σ)
  unfolding main_loop connect_with_retry
  main_loop-Orderly clock running zero r num_sym σ t = tt
  main_loop-Orderly clock running (suc fuel) r num_sym σ t =
      let tried = retry_loop-Settled (suc r.max_retries) r 0 r.base_backoff_ms σ.sock σ.world t in
      Orderly-if (running σ.world) _ (returned σ)
        (Orderly-retry _ _ tried (λ e te.
          let τ = record σ { sock = e.state.0; world = e.state.1 } in
          Orderly-ok e.ok (returned τ) _ te (
            Orderly-bind (run_connection k clock running num_sym fuel τ) returned
              (λ υ.
                main_loop k clock running fuel r num_sym
                  (record υ { world = k.sleep_for 500 υ.world }))
              (run_connection-Orderly clock running num_sym fuel τ te) (λ υ h. h)
              (λ υ h.
                main_loop-Orderly clock running fuel r num_sym
                  (record υ { world = k.sleep_for 500 υ.world })
                  (Tidy-keep ds base υ.sock (ds.sleep_for_keeps 500 υ.world) h)))))
        t
