-- ===== src/Client/Session/GivingUp.antt =====
-- The program with an address that cannot be parsed.
use market_data_handle.Prelude.{
  ℕ, zero, suc, ◌+◌, ◌*◌, ◌≤◌, ◌≡◌, refl, ap, ◌∙◌, Bool, true, false, none, some, [], ◌∷◌, ltb, min,
  u32, length, arith, Bool-cases, Option-cases, inl, inr,
}
use market_data_handle.Client.Kernel.{Kernel}
use market_data_handle.Client.Socket.{
  Socket, Retry, RetryEnd, connect_timeout, close_fd, open_connection, give_up, do_connect, connect,
  retry_loop, connect_with_retry,
}
use market_data_handle.Client.Socket.Retries.{connect_with_retry_ends}
use market_data_handle.Client.Session.{Feed, returned, main_loop}

module _ {W : Type 0} (k : Kernel W) where
  close_fd-host : (s : Socket) (w : W) → (close_fd k (s, w)).0.host ≡ s.host
  unfolding close_fd
  close_fd-host s w = elim (Option-cases s.fd) [
    | inl e ↦ rw (e, close_fd) refl
    | inr (fd, e) ↦ rw (e, close_fd) refl
  ]

  do_connect_fails :
      (timeout_ms : ℕ) (s : Socket) (w : W)
      → k.parse_address s.host ≡ none
      → (do_connect k timeout_ms (s, w)).0 ≡ false
  unfolding do_connect open_connection give_up
  do_connect_fails timeout_ms s w bad =
      let host = close_fd-host s w in
      let w1 = (close_fd k (s, w)).1 in
      let refused : k.parse_address (close_fd k (s, w)).0.host ≡ none =
        ap k.parse_address host ∙ bad in
      elim (Option-cases (k.socket w1).0) [
        | inl failed ↦ rw (failed, do_connect) refl
        | inr (d, made) ↦ rw (made, do_connect) (rw (refused, open_connection) refl)
      ]

  module _ (r : Retry) (bad : k.parse_address r.host ≡ none) where
    retry_loop_fails :
        (fuel attempt backoff : ℕ) (s : Socket) (w : W) (end : RetryEnd W)
        → retry_loop k fuel r attempt backoff (s, w) ≡ some end
        → end.ok ≡ false
    unfolding retry_loop connect
    retry_loop_fails zero attempt backoff s w end ran = cc
    retry_loop_fails (suc fuel) attempt backoff s w end ran =
        let failed : (connect k r.host r.port connect_timeout (s, w)).0 ≡ false =
          do_connect_fails connect_timeout (record s { host = r.host; port = r.port }) w bad in
        let σ = (connect k r.host r.port connect_timeout (s, w)).1 in
        let next : ℕ = min (u32 (backoff * 2)) 30000 in
        elim (Bool-cases (ltb attempt r.max_retries)) [
          | inr last ↦
              let over : retry_loop k (suc fuel) r attempt backoff (s, w)
                  ≡ some (record { ok = false; waits = []; state = (s, w) }) =
                rw (last, retry_loop) refl in
              ground (arith, ran, over)
          | inl more ↦
              elim (Option-cases
                (retry_loop k fuel r (attempt + 1) next (σ.0, k.sleep_for backoff σ.1))) [
                  | inl out ↦
                      let over : retry_loop k (suc fuel) r attempt backoff (s, w) ≡ none =
                        rw (more, failed, out, retry_loop) refl in
                      absurd (ground (arith, ran, over))
                  | inr (e, rest) ↦
                      let over : retry_loop k (suc fuel) r attempt backoff (s, w)
                          ≡ some (record e { waits = backoff ∷ e.waits }) =
                        rw (more, failed, rest, retry_loop) refl in
                      let same =
                        retry_loop_fails fuel (attempt + 1) next σ.0 (k.sleep_for backoff σ.1) e
                          rest in
                      ground (arith, ran, over, same)
                ]
        ]

-- With a host that cannot be parsed and a first wait of at most 30 s, a program that is running ends
-- in its first round: after `max_retries` attempts it leaves the loop over connections, with the
-- parser, the cache and the counters as they were.
pub main_loop_gives_up :
    {W : Type 0} (k : Kernel W) (clock : ℕ → ℕ) (running : W → Bool) (fuel : ℕ) (r : Retry)
    (num_sym : ℕ) (σ : Feed W)
    → k.parse_address r.host ≡ none
    → r.base_backoff_ms ≤ 30000
    → running σ.world ≡ true
    → (end : RetryEnd W) × (connect_with_retry k (suc r.max_retries) r (σ.sock, σ.world) ≡ some end)
      × (length end.waits ≡ r.max_retries)
      × (main_loop k clock running (suc fuel) r num_sym σ
          ≡ returned (record σ { sock = end.state.0; world = end.state.1 }))
unfolding main_loop
main_loop_gives_up k clock running fuel r num_sym σ bad small on =
    let (end, ran, within, waits, ends) =
      connect_with_retry_ends k r (suc r.max_retries) σ.sock σ.world (omega arith) small in
    let failed : end.ok ≡ false =
      unfold connect_with_retry in
      retry_loop_fails k r bad (suc r.max_retries) 0 r.base_backoff_ms σ.sock σ.world end ran in
    (end, ran, ground (arith, ends, failed), rw (on, ran, failed, main_loop) refl)
