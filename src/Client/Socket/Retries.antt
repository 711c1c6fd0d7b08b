-- ===== src/Client/Socket/Retries.antt =====
-- The retries of `connect_with_retry`: how many, how long the waits are, and that they end.
use mathlib.Core.Path.{subst}
use market_data_handle.Prelude.{
  ℕ, zero, suc, ◌+◌, ◌-◌, ◌*◌, ◌≤◌, ◌<◌, ◌≡◌, ◌⊎◌, refl, ap, Bool, true, false, some, List, [], ◌∷◌,
  ltb, length, min, u32, arith, Bool-cases, inl, inr,
}
use market_data_handle.Client.Kernel.{Kernel}
use market_data_handle.Client.Socket.{
  Socket, Retry, RetryEnd, connect_timeout, connect, retry_loop, connect_with_retry,
}
use market_data_handle.Client.Socket.Connect.{Settled, connect-Settled}

-- The waits as they are meant: doubled each time, and 30 s at most.
abbrev pub doubling : ℕ → ℕ → List ℕ
doubling zero b = []
doubling (suc n) b = min b 30000 ∷ doubling n (2 * b)

Settled-connected :
    {W : Type 0} (before : Bool) (e : Bool × (Socket × W))
    → Settled before e
    → e.0 ≡ true
    → e.1.0.connected ≡ true
Settled-connected before (true, (s, w)) settled ok = settled.0
Settled-connected before (false, (s, w)) settled ok = cc

next_wait : (b : ℕ) → min (u32 (min b 30000 * 2)) 30000 ≡ min (2 * b) 30000
next_wait b = omega arith

module _ {W : Type 0} (k : Kernel W) (r : Retry) where
  -- What the loop ends with, from attempt number `attempt` and the wait `min b 30000` on.
  record Outcome (attempt b : ℕ) (fuel : ℕ) (σ : Socket × W) : Type 0 where
    end : RetryEnd W
    ends : retry_loop k fuel r attempt (min b 30000) σ ≡ some end
    within : length end.waits ≤ r.max_retries - attempt
    all_used : end.ok ≡ false → length end.waits ≡ r.max_retries - attempt
    waits : end.waits ≡ doubling (length end.waits) b
    connected : end.ok ≡ true → end.state.0.connected ≡ true

  retry_loop-Outcome :
      (fuel attempt b : ℕ) (s : Socket) (w : W)
      → attempt ≤ r.max_retries
      → r.max_retries < fuel + attempt
      → Outcome attempt b fuel (s, w)
  unfolding retry_loop
  retry_loop-Outcome zero attempt b s w low enough = absurd (omega arith)
  retry_loop-Outcome (suc fuel) attempt b s w low enough =
      let got = connect k r.host r.port connect_timeout (s, w) in
      elim (Bool-cases (ltb attempt r.max_retries)) [
        | inr last ↦ record {
          end = record { ok = false; waits = []; state = (s, w) };
          ends = rw (last, retry_loop) refl;
          within = omega arith;
          all_used = λ e. ground arith;
          waits = refl;
          connected = λ e. cc;
        }
        | inl more ↦ elim (Bool-cases got.0) [
          | inl fine ↦ record {
            end = record { ok = true; waits = []; state = got.1 };
            ends = rw (more, fine, retry_loop) refl;
            within = omega arith;
            all_used = λ e. cc;
            waits = refl;
            connected = λ e.
                Settled-connected s.connected got
                  (connect-Settled k r.host r.port connect_timeout s w) fine;
          }
          | inr failed ↦
              let o =
                retry_loop-Outcome fuel (attempt + 1) (2 * b) got.1.0
                  (k.sleep_for (min b 30000) got.1.1) (ground arith) (omega arith) in
              record {
                end = record o.end { waits = min b 30000 ∷ o.end.waits };
                ends = rw (more, failed, next_wait b, retry_loop) (rw o.ends refl);
                within = ground (arith, o.within);
                all_used = λ e. ground (arith, o.all_used e);
                waits = ap (λ ws. min b 30000 ∷ ws) o.waits;
                connected = o.connected;
              }
        ]
      ]

-- With a first wait of at most 30 s, and one round of fuel more than `max_retries`, the retry loop
-- ends. It has slept at most `max_retries` times, first the base time and then twice the last, 30 s
-- at most; it ends with success and a connected socket, or without and after `max_retries` attempts
-- with a wait behind each.
pub connect_with_retry_ends :
    {W : Type 0} (k : Kernel W) (r : Retry) (fuel : ℕ) (s : Socket) (w : W)
    → r.max_retries < fuel
    → r.base_backoff_ms ≤ 30000
    → (end : RetryEnd W) × (connect_with_retry k fuel r (s, w) ≡ some end)
      × (length end.waits ≤ r.max_retries)
      × (end.waits ≡ doubling (length end.waits) r.base_backoff_ms)
      × (((end.ok ≡ true) × (end.state.0.connected ≡ true))
          ⊎ ((end.ok ≡ false) × (length end.waits ≡ r.max_retries)))
unfolding connect_with_retry
connect_with_retry_ends k r fuel s w enough small =
    let o = retry_loop-Outcome k r fuel 0 r.base_backoff_ms s w (omega arith) (omega arith) in
    let base : min r.base_backoff_ms 30000 ≡ r.base_backoff_ms = omega arith in
    (
      o.end,
      subst (λ b. retry_loop k fuel r 0 b (s, w) ≡ some o.end) base o.ends,
      omega (arith, o.within),
      o.waits,
      elim (Bool-cases o.end.ok) [
        | inl fine ↦ inl (fine, o.connected fine)
        | inr failed ↦ inr (failed, omega (arith, o.all_used failed))
      ],
    )
