-- ===== src/Parser/Recovery.antt =====
-- How the parser comes back to the stream after a damaged message or after bytes of no message.
use market_data_handle.Prelude.{
  ℕ, ◌+◌, ◌≤◌, ◌<◌, ◌≡◌, ◌≢◌, ap, ◌∙◌, ◌⊎◌, some, List, [], ◌∷◌, ◌++◌, map, length, set, get_or,
  concat, All, arith, length-append, append-nil, IsByte,
}
use market_data_handle.Protocol.{
  Message, header_of, message_bytes, msg_total_size, sizeof_header, max_msg_size, field_at,
  read_header,
}
use market_data_handle.Protocol.Layout.{IsSealed, length-message_bytes}
use market_data_handle.Parser.{
  Stats, Handlers, prepend, accept, reject, step, parse_buf_size, init, zero_stats,
}
use market_data_handle.Parser.Run.{scan, scan_next, scan_stop, step_nil}
use market_data_handle.Parser.Stream.{feed_all, feed_all-scan, settle, init-IsSettled}
use market_data_handle.Parser.Frames.{
  deliver, deliver_all, accept_all, scan-messages, step-message, frame_size,
}
use market_data_handle.Parser.Faults.{step_corrupted}

-- A fresh parser whose stream holds one message with one byte changed behind its type code, in
-- whatever blocks it comes: every other message is delivered, before and after, in order; the
-- damaged one is counted as one bad checksum and calls nothing.
pub feed_all-corrupted :
    (h : Handlers) (before : List Message) (m : Message) (after : List Message) (i y : ℕ)
    (chunks : List (List ℕ))
    → All IsSealed before
    → IsSealed m
    → All IsSealed after
    → 2 ≤ i
    → i < length (message_bytes m)
    → IsByte y
    → y ≢ get_or (message_bytes m) i 0
    → All (λ c. length c + max_msg_size ≤ parse_buf_size + 1) chunks
    → concat chunks
      ≡ concat (map message_bytes before)
        ++ (set (message_bytes m) i y ++ concat (map message_bytes after))
    → feed_all h init chunks ≡ (
      record { buf = []; stats = accept_all (reject (accept_all zero_stats before)) after },
      deliver_all h before ++ deliver_all h after,
    )
feed_all-corrupted h before m after i y chunks sb sm sa lo hi hy ne fits same =
    let s1 = accept_all zero_stats before in
    let tail : List ℕ = concat (map message_bytes after) in
    let s2 = accept_all (reject s1) after in
    feed_all-scan h init chunks (init-IsSettled h) fits
    ∙ ap (λ t. settle (scan h zero_stats t)) same
    ∙ rw (
      scan-messages h zero_stats before (set (message_bytes m) i y ++ tail) sb,
      scan_next h s1 (reject s1) _ tail [] (step_corrupted h s1 m y tail sm hy i lo hi ne),
      ← append-nil tail,
      scan-messages h (reject s1) after [] sa,
      scan_stop h s2 [] (step_nil h s2),
      append-nil,
    )

-- A byte that begins no type code.
abbrev pub IsNoise : ℕ → Type 0
IsNoise b = (b ≡ 0) ⊎ (3 < b)

step_noise :
    (h : Handlers) (s : Stats) (b : ℕ) (bs : List ℕ)
    → IsNoise b
    → sizeof_header ≤ length bs
    → step h s (b ∷ bs) ≡ some (s, bs, [])
unfolding step read_header field_at msg_total_size
step_noise h s b [] n wide = absurd (omega arith)
step_noise h s b (c ∷ bs) n wide = ground arith

-- Bytes that begin no type code, in front of a sealed message, are skipped one by one, uncounted,
-- and the message is delivered.
pub scan-noise :
    (h : Handlers) (s : Stats) (noise : List ℕ) (m : Message) (rest : List ℕ)
    → All IsNoise noise
    → IsSealed m
    → scan h s (noise ++ (message_bytes m ++ rest))
      ≡ prepend (deliver h m) (scan h (accept s (header_of m).seq_no) rest)
scan-noise h s [] m rest n sealed =
    scan_next h s _ _ rest (deliver h m) (step-message m rest h s sealed)
scan-noise h s (b ∷ bs) m rest (n, ns) sealed =
    let tail : List ℕ = bs ++ (message_bytes m ++ rest) in
    let wide : sizeof_header ≤ length tail = omega (
      arith,
      length-append bs (message_bytes m ++ rest),
      length-append (message_bytes m) rest,
      length-message_bytes m,
      frame_size m,
    ) in
    scan_next h s s (b ∷ tail) tail [] (step_noise h s b tail n wide)
    ∙ scan-noise h s bs m rest ns sealed
