-- ===== src/Protocol/Layout.antt =====
-- The sizes that the `static_assert`s of include/protocol.h state, and reading back what was laid out.
use market_data_handle.Prelude.{
  ℕ, ◌+◌, ◌<◌, ◌≡◌, refl, ◌∙◌, List, ◌++◌, append_assoc, arith, length, length-append, take,
}
use market_data_handle.Prelude.{
  drop, take-append_self, drop-append_self, IsU16, IsU32, IsU64, All, IsByte,
}
use market_data_handle.Protocol.Bytes.{le_bytes, le_value-le_bytes}
use market_data_handle.Protocol.{
  MsgHeader, TradeMsg, QuoteMsg, Message, trade, quote, heartbeat, header_of, checksum_of,
  header_bytes, trade_pay_bytes, quote_pay_bytes, payload_bytes, body_bytes, message_bytes,
  compute_checksum, msg_total_size, msg_trade, msg_quote, msg_heartbeat, read_header, read_trade,
  read_quote, sizeof_header, max_msg_size,
}

-- The type code that goes with a message's struct.
abbrev pub kind : Message → ℕ
kind (trade m) = msg_trade
kind (quote m) = msg_quote
kind (heartbeat m) = msg_heartbeat

-- Every field fits its C++ type.
abbrev pub HeaderFits : MsgHeader → Type 0
HeaderFits h = IsU16 h.msg_type × IsU32 h.seq_no × IsU64 h.timestamp_ns × IsU16 h.symbol_id

abbrev pub PayloadFits : Message → Type 0
PayloadFits (trade m) = IsU64 m.payload.price × IsU32 m.payload.quantity
PayloadFits (quote m) =
    IsU64 m.payload.bid_price
    × IsU32 m.payload.bid_qty
    × IsU64 m.payload.ask_price
    × IsU32 m.payload.ask_qty
PayloadFits (heartbeat m) = Unit

-- A message as the generator sends it: the right type code, fields that fit, its own checksum.
pub record IsSealed (m : Message) : Type 0 where
  pub typed : (header_of m).msg_type ≡ kind m
  pub header_fits : HeaderFits (header_of m)
  pub payload_fits : PayloadFits m
  pub sealed : checksum_of m ≡ compute_checksum (body_bytes m)

pub length-header_bytes : (h : MsgHeader) → length (header_bytes h) ≡ sizeof_header
unfolding header_bytes
length-header_bytes h = refl

pub length-body_bytes : (m : Message) → length (body_bytes m) + 4 ≡ msg_total_size (kind m)
unfolding body_bytes header_bytes payload_bytes trade_pay_bytes quote_pay_bytes msg_total_size
length-body_bytes (trade m) = refl
length-body_bytes (quote m) = refl
length-body_bytes (heartbeat m) = refl

-- The memory image of a message is as long as `msg_total_size` of its type code.
pub length-message_bytes : (m : Message) → length (message_bytes m) ≡ msg_total_size (kind m)
unfolding message_bytes
length-message_bytes m =
    length-append (body_bytes m) (le_bytes 4 (checksum_of m)) ∙ length-body_bytes m

-- No size in the table exceeds `MAX_MSG_SIZE`, and each but 0 has room for a header and a checksum.
pub msg_total_size-le : (t : ℕ) → msg_total_size t < max_msg_size + 1
unfolding msg_total_size
msg_total_size-le t = ground arith

pub msg_total_size-ge : (t : ℕ) → 0 < msg_total_size t → sizeof_header + 4 < msg_total_size t + 1
unfolding msg_total_size
msg_total_size-ge t h = ground arith

pub body_bytes-IsByte : (m : Message) → All IsByte (body_bytes m)
unfolding body_bytes header_bytes payload_bytes trade_pay_bytes quote_pay_bytes
body_bytes-IsByte (trade m) = omega arith
body_bytes-IsByte (quote m) = omega arith
body_bytes-IsByte (heartbeat m) = omega arith

module _ (m : Message) (rest : List ℕ) where
  -- The bytes that the parser sums, and the four that it compares with.
  pub take-message_bytes : take (length (body_bytes m)) (message_bytes m ++ rest) ≡ body_bytes m
  unfolding message_bytes
  take-message_bytes =
      rw append_assoc (take-append_self (length (body_bytes m)) (body_bytes m) _ refl)

  pub drop-message_bytes :
      drop (length (body_bytes m)) (message_bytes m ++ rest) ≡ le_bytes 4 (checksum_of m) ++ rest
  unfolding message_bytes
  drop-message_bytes =
      rw append_assoc (drop-append_self (length (body_bytes m)) (body_bytes m) _ refl)

  -- The header is read back from the front of any buffer that begins with the message.
  pub read_header-message_bytes :
      HeaderFits (header_of m) → read_header (message_bytes m ++ rest) ≡ header_of m
  unfolding read_header message_bytes body_bytes header_bytes
  read_header-message_bytes (ht, hs, hn, hi) = λ i. record {
    msg_type = le_value-le_bytes 2 _ ht i;
    seq_no = le_value-le_bytes 4 _ hs i;
    timestamp_ns = le_value-le_bytes 8 _ hn i;
    symbol_id = le_value-le_bytes 2 _ hi i;
  }

-- A trade laid out in memory and read back through a `TradeMsg*` is the trade, whatever follows it.
pub read_trade-message_bytes :
    (m : TradeMsg) (rest : List ℕ)
    → HeaderFits m.header
    → PayloadFits (trade m)
    → IsU32 m.checksum
    → read_trade (message_bytes (trade m) ++ rest) ≡ m
unfolding read_trade message_bytes body_bytes header_bytes payload_bytes trade_pay_bytes
read_trade-message_bytes m rest hh (hp, hq) hc = λ i. record {
  header = read_header-message_bytes (trade m) rest hh i;
  payload = record { price = le_value-le_bytes 8 _ hp i; quantity = le_value-le_bytes 4 _ hq i };
  checksum = le_value-le_bytes 4 _ hc i;
}

-- The same for a quote and a `QuoteMsg*`.
pub read_quote-message_bytes :
    (m : QuoteMsg) (rest : List ℕ)
    → HeaderFits m.header
    → PayloadFits (quote m)
    → IsU32 m.checksum
    → read_quote (message_bytes (quote m) ++ rest) ≡ m
unfolding read_quote message_bytes body_bytes header_bytes payload_bytes quote_pay_bytes
read_quote-message_bytes m rest hh (hb, hbq, ha, haq) hc = λ i. record {
  header = read_header-message_bytes (quote m) rest hh i;
  payload = record {
    bid_price = le_value-le_bytes 8 _ hb i;
    bid_qty = le_value-le_bytes 4 _ hbq i;
    ask_price = le_value-le_bytes 8 _ ha i;
    ask_qty = le_value-le_bytes 4 _ haq i;
  };
  checksum = le_value-le_bytes 4 _ hc i;
}
