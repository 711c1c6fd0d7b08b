-- ===== src/Parser/Gaps.antt =====
-- What the sequence counters of the parser count.
use market_data_handle.Prelude.{
  ℕ, ◌+◌, ◌-◌, ◌^◌, ◌≤◌, ◌<◌, ◌≡◌, List, [], ◌∷◌, map, length, concat, All, arith, IsU32,
}
use market_data_handle.Protocol.{Message, header_of, message_bytes, max_msg_size}
use market_data_handle.Protocol.Layout.{IsSealed}
use market_data_handle.Parser.{Stats, Handlers, accept, init, zero_stats, parse_buf_size}
use market_data_handle.Parser.Stream.{feed_all}
use market_data_handle.Parser.Frames.{accept_all, feed_all-messages}

abbrev pub seq_of : Message → ℕ
seq_of m = (header_of m).seq_no

-- The messages' numbers rise, each above `last`, and stay within `uint32_t`.
abbrev pub Ascending : ℕ → List Message → Type 0
Ascending last [] = Unit
Ascending last (m ∷ ms) = (last < seq_of m) × IsU32 (seq_of m) × Ascending (seq_of m) ms

-- A message above the last one adds the numbers skipped between the two.
accept_ascending :
    (s : Stats) (seq : ℕ)
    → 0 < s.last_seq
    → s.last_seq < seq
    → IsU32 seq
    → s.seq_gaps + (2 ^ 32 - s.last_seq) ≤ 2 ^ 64
    → (accept s seq).seq_gaps + s.last_seq + 1 ≡ s.seq_gaps + seq
unfolding accept
accept_ascending s seq pos lt fits room = ground arith

-- The gap counter gains exactly the numbers that are missing between the last message seen and
-- the last of the list, the counter of messages their number.
pub accept_all-seq_gaps :
    (s : Stats) (ms : List Message)
    → 0 < s.last_seq
    → Ascending s.last_seq ms
    → s.seq_gaps + (2 ^ 32 - s.last_seq) ≤ 2 ^ 64
    → (accept_all s ms).seq_gaps + s.last_seq + length ms ≡ s.seq_gaps + (accept_all s ms).last_seq
unfolding accept_all accept
accept_all-seq_gaps s [] pos asc room = omega arith
accept_all-seq_gaps s (m ∷ ms) pos (lt, fits, asc) room =
    let now = accept_ascending s (seq_of m) pos lt fits room in
    let later =
      accept_all-seq_gaps (accept s (seq_of m)) ms (omega arith) asc (omega (arith, now)) in
    omega (arith, now, later)

accept_all-total_parsed :
    (s : Stats) (ms : List Message)
    → s.total_parsed + length ms < 2 ^ 64
    → (accept_all s ms).total_parsed ≡ s.total_parsed + length ms
unfolding accept_all accept
accept_all-total_parsed s [] room = omega arith
accept_all-total_parsed s (m ∷ ms) room =
    omega (arith, accept_all-total_parsed (accept s (seq_of m)) ms (omega arith))

-- A fresh parser that is fed the stream of some sealed messages, fewer than 2^64, with rising numbers
-- of which the first is above 0, in blocks of any size that fits, counts every message, and as gaps
-- exactly the numbers between the first and the last that did not come.
pub feed_all-seq_gaps :
    (h : Handlers) (m : Message) (ms : List Message) (chunks : List (List ℕ))
    → All IsSealed (m ∷ ms)
    → Ascending 0 (m ∷ ms)
    → length ms + 1 < 2 ^ 64
    → All (λ c. length c + max_msg_size ≤ parse_buf_size + 1) chunks
    → concat chunks ≡ concat (map message_bytes (m ∷ ms))
    → let s = (feed_all h init chunks).0.stats in
      (s.seq_gaps + seq_of m + length ms ≡ s.last_seq) × (s.total_parsed ≡ length ms + 1)
unfolding accept_all accept
feed_all-seq_gaps h m ms chunks sealed (pos, small, asc) room fits same =
    let first : Stats = accept zero_stats (seq_of m) in
    rw (feed_all-messages h (m ∷ ms) chunks sealed fits same) (
      omega (arith, accept_all-seq_gaps first ms pos asc (omega arith)),
      omega (arith, accept_all-total_parsed first ms (omega arith)),
    )
