-- ===== src/Server/Exchange/EndToEnd.antt =====
-- From the ticks of the exchange to the counters of the client's parser.
use market_data_handle.Prelude.{
  member, ℕ, suc, ◌+◌, ◌≤◌, ◌<◌, ◌^◌, ◌≡◌, refl, ap, ◌∙◌, true, some, List, [], ◌∷◌, ◌++◌, length,
  map, concat, All, arith, Bool-cases, ◌⊎◌, inl, inr,
}
use market_data_handle.Protocol.{Message, message_bytes, max_msg_size}
use market_data_handle.Protocol.Layout.{IsSealed}
use market_data_handle.Parser.{Stats, Handlers, accept, init, zero_stats, parse_buf_size}
use market_data_handle.Parser.Stream.{feed_all}
use market_data_handle.Parser.Frames.{accept_all, feed_all-messages}
use market_data_handle.Parser.Gaps.{seq_of, Ascending, feed_all-seq_gaps}
use market_data_handle.Server.Exchange.{TickSource, SendResult, accepted, Exchange, tick_seq}
use market_data_handle.Server.Exchange.Send.{Effect}
use market_data_handle.Server.Exchange.Ticks.{tick_seq_lem}
use market_data_handle.Server.Exchange.Ticking.{
  Able, first_seq, generate_ticks, generate_ticks-Ticked,
}

accept_all-bad_checksums :
    (s : Stats) (ms : List Message) → (accept_all s ms).bad_checksums ≡ s.bad_checksums
unfolding accept_all accept
accept_all-bad_checksums s [] = refl
accept_all-bad_checksums s (m ∷ ms) = accept_all-bad_checksums (accept s (seq_of m)) ms

-- What a fresh parser counts of `k + 1` sealed messages with rising numbers, given the number of the
-- first and the one that follows the last.
pub feed_all_counts :
    (h : Handlers) (ms : List Message) (chunks : List (List ℕ)) (k first end : ℕ)
    → length ms ≡ suc k
    → suc k < 2 ^ 32
    → All IsSealed ms
    → Ascending 0 ms
    → first_seq ms ≡ first
    → (accept_all zero_stats ms).last_seq + 1 ≡ end
    → All (λ c. length c + max_msg_size ≤ parse_buf_size + 1) chunks
    → concat chunks ≡ concat (map message_bytes ms)
    → let p = (feed_all h init chunks).0 in
      (p.buf ≡ [])
      × (p.stats.total_parsed ≡ suc k)
      × (p.stats.bad_checksums ≡ 0)
      × (p.stats.seq_gaps + first + suc k ≡ end)
feed_all_counts h [] chunks k first end count small sealed asc start stop fits same =
    absurd (omega arith)
feed_all_counts h (m ∷ ms) chunks k first end count small sealed asc start stop fits same =
    let fed = feed_all-messages h (m ∷ ms) chunks sealed fits same in
    let (gaps, total) = feed_all-seq_gaps h m ms chunks sealed asc (omega arith) fits same in
    let last : (feed_all h init chunks).0.stats.last_seq
        ≡ (accept_all zero_stats (m ∷ ms)).last_seq =
      ap (λ r. r.0.stats.last_seq) fed in
    (
      ap (λ r. r.0.buf) fed,
      omega (arith, total),
      ap (λ r. r.0.stats.bad_checksums) fed ∙ accept_all-bad_checksums zero_stats (m ∷ ms),
      omega (arith, gaps, last),
    )

module _ {G N : Type 0} (src : TickSource G) (send : ℕ → List ℕ → N → SendResult × N)
    (log : N → ℕ → List ℕ) (Ready : G → Type 0)
    (network : (fd b : ℕ) (bs : List ℕ) (net : N)
      → let (r, after) = send fd (b ∷ bs) net in Effect fd (b ∷ bs) (log net) (log after) r)
    (willing : (fd b : ℕ) (bs : List ℕ) (net : N)
      → (count : ℕ) × ((send fd (b ∷ bs) net).0 ≡ accepted count)) where
  -- An exchange that can make `k + 1` ticks, over a network that takes all that is sent: the ticks
  -- run through, and a client's log gains a stream that a fresh parser, which gets it in blocks of
  -- a size that fits, cut in any way, turns into `k + 1` accepted messages, no bad checksum and
  -- nothing left over. The parser counts as gaps exactly the numbers that the exchange skipped
  -- after its first, and none without fault injection.
  pub generate_ticks-feed_all :
      (h : Handlers) (k : ℕ) (x : Exchange G) (net : N) (fd : ℕ) (cut : List ℕ → List (List ℕ))
      → Able src Ready (suc k) x
      → 0 < x.seq_no
      → member fd x.clients ≡ true
      → ((bs : List ℕ) → All (λ c. length c + max_msg_size ≤ parse_buf_size + 1) (cut bs))
      → ((bs : List ℕ) → concat (cut bs) ≡ bs)
      → (y : Exchange G) × (after : N) × (stream : List ℕ) × (generate_ticks src send
            (suc k)
            (x, net)
          ≡ some (y, after))
        × (log after fd ≡ log net fd ++ stream)
        × let p = (feed_all h init (cut stream)).0 in
          (p.buf ≡ [])
          × (p.stats.total_parsed ≡ suc k)
          × (p.stats.bad_checksums ≡ 0)
          × (p.stats.seq_gaps + tick_seq x + suc k ≡ y.seq_no)
          × ((x.fault_injection ≡ true) ⊎ (p.stats.seq_gaps ≡ 0))
  generate_ticks-feed_all h k x net fd cut able pos here fits same =
      let run = generate_ticks-Ticked src send log Ready network willing (suc k) x net able in
      let stream = concat (map message_bytes run.messages) in
      let (held, total, bad, gaps) =
        feed_all_counts h run.messages (cut stream) k (tick_seq x) run.final.seq_no run.count
          (omega (arith, able.room)) run.sealed (run.ascending 0 pos) (run.first k refl)
          (run.last zero_stats (λ e. absurd (omega arith))) (fits stream) (same stream) in
      (
        run.final,
        run.after,
        stream,
        run.ran,
        run.logged fd here,
        (
          held,
          total,
          bad,
          gaps,
          elim (Bool-cases x.fault_injection) [
            | inl faulty ↦ inl faulty
            | inr clean ↦ inr (
                ground (arith, gaps, run.skipless clean, tick_seq_lem x (omega (arith, able.room))))
          ],
        ),
      )
