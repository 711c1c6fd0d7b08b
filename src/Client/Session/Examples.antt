-- ===== src/Client/Session/Examples.antt =====
-- The loops of the client at a heartbeat that comes in two blocks.
use mathlib.Core.Option
use market_data_handle.Prelude.{
  none, ℕ, ◌*◌, ◌+◌, ◌≡◌, refl, true, some, List, [], ◌∷◌, take, drop, replicate, arith,
}
use market_data_handle.Protocol.{
  Message, heartbeat, MsgHeader, message_bytes, body_bytes, header_bytes, payload_bytes,
  compute_checksum, msg_total_size, read_header,
}
use market_data_handle.Parser
use market_data_handle.Parser.{Parser, feed}
use market_data_handle.Latency
use market_data_handle.Client.{Client, receive_all}
use market_data_handle.Client.Kernel.{Kernel, RecvResult, received}
use market_data_handle.Client.Socket.{Socket, Retry}
use market_data_handle.Client.Socket.Local.{Local, local_kernel}
use market_data_handle.Client.Session.{Feed, returned, fault, drain, sym_ids}
use market_data_handle.Client.Session.Reading.{Arrives, quiet, block, feed_at, drain-receive_all}

abbrev beat_header : MsgHeader
beat_header = record { msg_type = 3; seq_no = 9; timestamp_ns = 1000; symbol_id = 0 }

abbrev beat : Message
beat = heartbeat (record {
  header = beat_header;
  checksum =
      compute_checksum (body_bytes (heartbeat (record { header = beat_header; checksum = 0 })));
})

abbrev first_block : List ℕ
first_block = take 10 (message_bytes beat)

abbrev second_block : List ℕ
second_block = drop 10 (message_bytes beat)

abbrev clock : ℕ → ℕ
clock k = 1000 + 100 * k

abbrev fresh_client : Client
fresh_client = record { cache = []; lat = Latency.init; total_messages = 0; callbacks = 0 }

abbrev with_answers : List RecvResult → Local
with_answers rs = record { open_fds = 4 ∷ 3 ∷ []; accepts = []; answers = rs }

abbrev connected_socket : Socket
connected_socket = record {
  fd = some 3;
  epoll_fd = some 4;
  connected = true;
  host = [];
  port = 9876;
}

abbrev waiting : List RecvResult → Feed Local
waiting rs = feed_at connected_socket (with_answers rs) Parser.init fresh_client (replicate 65536 0)

abbrev after_beat : Parser
after_beat = record {
  buf = [];
  stats = record { last_seq = 9; total_parsed = 1; seq_gaps = 0; bad_checksums = 0 };
}

both_arrive :
    (rs : List RecvResult)
    → Arrives local_kernel connected_socket
        (with_answers (received first_block ∷ received second_block ∷ rs))
        (first_block ∷ second_block ∷ [])
        (with_answers rs)
unfolding message_bytes body_bytes payload_bytes header_bytes compute_checksum
both_arrive rs =
    block refl (omega arith) (omega arith) (block refl (omega arith) (omega arith) quiet)

beat_received :
    receive_all clock (Parser.init, fresh_client) (first_block ∷ second_block ∷ [])
    ≡ some (after_beat, record fresh_client { total_messages = 1; callbacks = 1 })
unfolding receive_all feed message_bytes body_bytes payload_bytes header_bytes compute_checksum
    Option.bind Parser.run Parser.step msg_total_size read_header Parser.dispatch Parser.accept
beat_received = refl

drain-receive_all_example :
    let σ = waiting (received first_block ∷ received second_block ∷ []) in
    (buf : List ℕ) × (drain local_kernel clock 3 σ
      ≡ elim (receive_all clock (σ.parser, σ.client) (first_block ∷ second_block ∷ [])) [
        | none ↦ fault
        | some (q, d) ↦ returned (feed_at connected_socket (with_answers []) q d buf)
      ])
drain-receive_all_example =
    drain-receive_all local_kernel clock
      (waiting (received first_block ∷ received second_block ∷ [])) 3 (both_arrive []) refl refl
      (omega arith) (omega arith)

sym_ids_run : sym_ids 65538 ≡ 0 ∷ 1 ∷ []
unfolding sym_ids
sym_ids_run = refl

abbrev no_address : Kernel Local
no_address = record local_kernel { parse_address = λ host. none }

abbrev retry : Retry
retry = record { host = []; port = 9876; max_retries = 3; base_backoff_ms = 200 }
