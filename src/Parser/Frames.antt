-- ===== src/Parser/Frames.antt =====
-- Messages that were sealed by the generator, through the parser.
use market_data_handle.Prelude.{
  ℕ, ◌+◌, ◌-◌, ◌≤◌, ◌≡◌, refl, sym, ap, ◌∙◌, some, List, [], ◌∷◌, ◌++◌, map, length, take, drop,
  concat, All, arith, length-append, append_assoc, append-nil, if◌then◌else◌, take-append_self,
  drop-append_self,
}
use market_data_handle.Protocol.{
  Message, trade, quote, heartbeat, header_of, checksum_of, body_bytes, message_bytes,
  compute_checksum, msg_total_size, field_at, max_msg_size, sizeof_header,
}
use market_data_handle.Protocol.Bytes.{le_value-le_bytes}
use market_data_handle.Protocol.Checksum.{compute_checksum-lt}
use market_data_handle.Protocol.Layout.{
  IsSealed, kind, length-body_bytes, length-message_bytes, take-message_bytes, drop-message_bytes,
  read_header-message_bytes,
}
use market_data_handle.Parser.{
  Stats, Handlers, Call, on_trade, on_quote, on_heartbeat, prepend, accept, dispatch, step,
  parse_buf_size, init, zero_stats,
}
use market_data_handle.Parser.Run.{scan, scan_next, scan_stop, step_nil}
use market_data_handle.Parser.Stream.{feed_all, feed_all-scan, settle, init-IsSettled}

-- The callbacks that a message causes: its own, if set, with exactly the message's bytes.
unfoldable pub deliver : Handlers → Message → List Call
deliver h (trade m) = if h.has_trade then on_trade (message_bytes (trade m)) ∷ [] else []
deliver h (quote m) = if h.has_quote then on_quote (message_bytes (quote m)) ∷ [] else []
deliver h (heartbeat m) =
    if h.has_heartbeat then on_heartbeat (message_bytes (heartbeat m)) ∷ [] else []

dispatch-kind : (h : Handlers) (m : Message) → dispatch h (kind m) (message_bytes m) ≡ deliver h m
unfolding dispatch deliver
dispatch-kind h (trade m) = refl
dispatch-kind h (quote m) = refl
dispatch-kind h (heartbeat m) = refl

pub frame_size : (m : Message) → sizeof_header + 4 ≤ msg_total_size (kind m)
unfolding msg_total_size
frame_size (trade m) = omega arith
frame_size (quote m) = omega arith
frame_size (heartbeat m) = omega arith

module _ (m : Message) (rest : List ℕ) where
  take-frame : take (msg_total_size (kind m)) (message_bytes m ++ rest) ≡ message_bytes m
  take-frame = take-append_self _ (message_bytes m) rest (sym (length-message_bytes m))

  drop-frame : drop (msg_total_size (kind m)) (message_bytes m ++ rest) ≡ rest
  drop-frame = drop-append_self _ (message_bytes m) rest (sym (length-message_bytes m))

  body_size : msg_total_size (kind m) - 4 ≡ length (body_bytes m)
  body_size = omega (arith, length-body_bytes m)

  wire_checksum :
      IsSealed m
      → field_at (msg_total_size (kind m) - 4) 4 (message_bytes m ++ rest)
        ≡ compute_checksum (body_bytes m)
  unfolding field_at
  wire_checksum s =
      rw (body_size, drop-message_bytes m rest)
        (le_value-le_bytes 4 (checksum_of m) (rw s.sealed (compute_checksum-lt (body_bytes m)))
          ∙ s.sealed)

  summed :
      compute_checksum (take (msg_total_size (kind m) - 4) (message_bytes m ++ rest))
      ≡ compute_checksum (body_bytes m)
  summed = rw (body_size, take-message_bytes m rest)

  -- A sealed message at the front of the buffer is accepted and handed to its callback, whole.
  pub step-message :
      (h : Handlers) (s : Stats)
      → IsSealed m
      → step h s (message_bytes m ++ rest) ≡ some (accept s (header_of m).seq_no, rest, deliver h m)
  unfolding step
  step-message h s sealed =
      rw
        (
          read_header-message_bytes m rest sealed.header_fits,
          sealed.typed,
          drop-frame,
          take-frame,
          wire_checksum sealed,
          summed,
          dispatch-kind h m,
        )
        (ground (arith, length-append (message_bytes m) rest, length-message_bytes m, frame_size m))

-- The counters after all the messages of a list.
unfoldable pub accept_all : Stats → List Message → Stats
accept_all s [] = s
accept_all s (m ∷ ms) = accept_all (accept s (header_of m).seq_no) ms

unfoldable pub deliver_all : Handlers → List Message → List Call
deliver_all h [] = []
deliver_all h (m ∷ ms) = deliver h m ++ deliver_all h ms

-- Sealed messages, one after the other, are all accepted and delivered in order, and the loop goes
-- on with what follows them.
pub scan-messages :
    (h : Handlers) (s : Stats) (ms : List Message) (rest : List ℕ)
    → All IsSealed ms
    → scan h s (concat (map message_bytes ms) ++ rest)
      ≡ prepend (deliver_all h ms) (scan h (accept_all s ms) rest)
unfolding accept_all deliver_all
scan-messages h s [] rest sealed = refl
scan-messages h s (m ∷ ms) rest (sealed, more) =
    let tail : List ℕ = concat (map message_bytes ms) ++ rest in
    ap (scan h s) (append_assoc (message_bytes m) (concat (map message_bytes ms)) rest)
    ∙ scan_next h s _ (message_bytes m ++ tail) tail (deliver h m) (step-message m tail h s sealed)
    ∙ rw (scan-messages h (accept s (header_of m).seq_no) ms rest more, append_assoc)

-- From a fresh parser, whatever blocks the stream of some sealed messages arrives in: each callback
-- gets its messages' bytes, in order, nothing is left in the buffer, and the counters are those
-- that count the messages alone.
pub feed_all-messages :
    (h : Handlers) (ms : List Message) (chunks : List (List ℕ))
    → All IsSealed ms
    → All (λ c. length c + max_msg_size ≤ parse_buf_size + 1) chunks
    → concat chunks ≡ concat (map message_bytes ms)
    → feed_all h init chunks
      ≡ (record { buf = []; stats = accept_all zero_stats ms }, deliver_all h ms)
feed_all-messages h ms chunks sealed fits same =
    feed_all-scan h init chunks (init-IsSettled h) fits
    ∙ ap (λ t. settle (scan h zero_stats t)) (same ∙ sym (append-nil _))
    ∙ rw (
      scan-messages h zero_stats ms [] sealed,
      scan_stop h (accept_all zero_stats ms) [] (step_nil h _),
      append-nil,
    )
