-- ===== src/Parser/Examples.antt =====
-- Runs of the parser on small streams, and its theorems at such streams.
use market_data_handle.Prelude.{
  ℕ, ◌+◌, ◌≤◌, ◌<◌, ◌≡◌, ◌≢◌, refl, true, List, [], ◌∷◌, ◌++◌, map, length, set, get_or, concat,
  take, drop, All, arith, IsU32,
}
use market_data_handle.Protocol.{
  Message, heartbeat, MsgHeader, message_bytes, body_bytes, header_bytes, payload_bytes,
  compute_checksum, max_msg_size,
}
use market_data_handle.Protocol.Layout.{IsSealed}
use market_data_handle.Parser.{
  Handlers, Parser, accept, reject, step, parse_buf_size, init, zero_stats, feed,
}
use market_data_handle.Parser.Run.{scan}
use market_data_handle.Parser.Stream.{
  feed_all, feed_all-scan, feed_all-concat, feed-IsSettled, init-IsSettled, IsSettled, settle,
}
use market_data_handle.Parser.Frames.{deliver_all, accept_all, feed_all-messages}
use market_data_handle.Parser.Gaps.{feed_all-seq_gaps}
use market_data_handle.Parser.Recovery.{feed_all-corrupted}

abbrev ping_header : ℕ → MsgHeader
ping_header n = record { msg_type = 3; seq_no = n; timestamp_ns = 0x1122334455; symbol_id = 0 }

-- A heartbeat numbered `n`.
abbrev ping : ℕ → Message
ping n =
    heartbeat (record {
      header = ping_header n;
      checksum = compute_checksum (header_bytes (ping_header n));
    })

ping-IsSealed : (n : ℕ) → IsU32 n → IsSealed (ping n)
unfolding body_bytes payload_bytes header_bytes
ping-IsSealed n h = record {
  typed = refl;
  header_fits = (omega arith, h, omega arith, omega arith);
  payload_fits = tt;
  sealed = refl;
}

abbrev all_set : Handlers
all_set = record { has_trade = true; has_quote = true; has_heartbeat = true }

-- Numbers 5, 6 and 9: two are missing.
abbrev pings : List Message
pings = ping 5 ∷ ping 6 ∷ ping 9 ∷ []

abbrev stream : List ℕ
stream = concat (map message_bytes pings)

-- Cut inside the first and the second message.
abbrev cut : List (List ℕ)
cut = take 7 stream ∷ take 20 (drop 7 stream) ∷ drop 20 (drop 7 stream) ∷ []

pings-IsSealed : All IsSealed pings
pings-IsSealed = (
  ping-IsSealed 5 (omega arith),
  (ping-IsSealed 6 (omega arith), (ping-IsSealed 9 (omega arith), tt)),
)

cut_fits : All (λ c. length c + max_msg_size ≤ parse_buf_size + 1) cut
unfolding message_bytes body_bytes payload_bytes header_bytes compute_checksum
cut_fits = omega arith

cut_same : concat cut ≡ stream
unfolding message_bytes body_bytes payload_bytes header_bytes compute_checksum
cut_same = refl

feed_all-messages_example :
    feed_all all_set init cut
    ≡ (record { buf = []; stats = accept_all zero_stats pings }, deliver_all all_set pings)
feed_all-messages_example = feed_all-messages all_set pings cut pings-IsSealed cut_fits cut_same

feed_all-seq_gaps_example :
    let s = (feed_all all_set init cut).0.stats in
    (s.seq_gaps + 5 + 2 ≡ s.last_seq) × (s.total_parsed ≡ 2 + 1)
feed_all-seq_gaps_example =
    feed_all-seq_gaps all_set (ping 5) (ping 6 ∷ ping 9 ∷ []) cut pings-IsSealed (omega arith)
      (omega arith) cut_fits cut_same

pings_counted :
    accept_all zero_stats pings
    ≡ record { last_seq = 9; total_parsed = 3; seq_gaps = 2; bad_checksums = 0 }
unfolding accept_all accept
pings_counted = refl

whole_fits : All (λ c. length c + max_msg_size ≤ parse_buf_size + 1) (stream ∷ [])
unfolding message_bytes body_bytes payload_bytes header_bytes compute_checksum
whole_fits = omega arith

whole_same : concat cut ≡ concat (stream ∷ [])
unfolding message_bytes body_bytes payload_bytes header_bytes compute_checksum
whole_same = refl

feed_all-concat_example : feed_all all_set init cut ≡ feed_all all_set init (stream ∷ [])
feed_all-concat_example =
    feed_all-concat all_set init cut (stream ∷ []) (init-IsSettled all_set) cut_fits whole_fits
      whole_same

-- A parser that holds the front of a message.
abbrev holding : Parser
holding = record { buf = 3 ∷ 0 ∷ 5 ∷ []; stats = zero_stats }

holding-IsSettled : IsSettled all_set holding
unfolding step
holding-IsSettled = refl

feed_all-scan_example :
    feed_all all_set holding cut ≡ settle (scan all_set zero_stats (holding.buf ++ concat cut))
feed_all-scan_example = feed_all-scan all_set holding cut holding-IsSettled cut_fits

feed-IsSettled_example :
    IsSettled all_set (feed all_set holding stream).0
    × (length (feed all_set holding stream).0.buf < max_msg_size)
feed-IsSettled_example = feed-IsSettled all_set holding stream

changed_differs : 77 ≢ get_or (message_bytes (ping 6)) 4 0
unfolding message_bytes body_bytes payload_bytes header_bytes
changed_differs = omega arith

changed_inside : 4 < length (message_bytes (ping 6))
unfolding message_bytes body_bytes payload_bytes header_bytes
changed_inside = omega arith

abbrev damaged : List (List ℕ)
damaged =
    (message_bytes (ping 5)
      ++ (set (message_bytes (ping 6)) 4 77 ++ (message_bytes (ping 9) ++ [])))
    ∷ []

damaged_fits : All (λ c. length c + max_msg_size ≤ parse_buf_size + 1) damaged
unfolding message_bytes body_bytes payload_bytes header_bytes compute_checksum
damaged_fits = omega arith

damaged_same :
    concat damaged
    ≡ concat (map message_bytes (ping 5 ∷ []))
      ++ (set (message_bytes (ping 6)) 4 77 ++ concat (map message_bytes (ping 9 ∷ [])))
unfolding message_bytes body_bytes payload_bytes header_bytes compute_checksum
damaged_same = refl

feed_all-corrupted_example : feed_all all_set init damaged ≡ (
  record {
    buf = [];
    stats = accept_all (reject (accept_all zero_stats (ping 5 ∷ []))) (ping 9 ∷ []);
  },
  deliver_all all_set (ping 5 ∷ []) ++ deliver_all all_set (ping 9 ∷ []),
)
feed_all-corrupted_example =
    feed_all-corrupted all_set (ping 5 ∷ []) (ping 6) (ping 9 ∷ []) 4 77 damaged
      (ping-IsSealed 5 (omega arith), tt) (ping-IsSealed 6 (omega arith))
      (ping-IsSealed 9 (omega arith), tt) (omega arith) changed_inside (omega arith) changed_differs
      damaged_fits damaged_same
