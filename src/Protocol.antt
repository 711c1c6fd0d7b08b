-- ===== src/Protocol.antt =====
-- include/protocol.h: the packed wire structs, the XOR checksum and the size table.
-- A struct's memory image is the list of its bytes, each field in little-endian order with no
-- padding (`#pragma pack(push, 1)` on x86-64). A `double` is the number that its 64 bits spell;
-- nothing in the protocol computes with it.
pub mod Bytes
pub mod Layout
pub mod Checksum
mod Examples
use Prim.Native.Nat.{bit_xor}
use market_data_handle.Prelude.{
  ℕ, zero, suc, ◌+◌, ◌-◌, ◌*◌, ◌%◌, ◌^◌, List, [], ◌∷◌, ◌++◌, ◌==◌, if◌then◌else◌, u32, take, drop,
}
use Bytes.{le_bytes, le_value}

abbrev pub msg_trade : ℕ
msg_trade = 0x0001

abbrev pub msg_quote : ℕ
msg_quote = 0x0002

abbrev pub msg_heartbeat : ℕ
msg_heartbeat = 0x0003

abbrev pub cmd_subscribe : ℕ
cmd_subscribe = 0xff

pub record MsgHeader : Type 0 where
  pub msg_type : ℕ  -- uint16_t
  pub seq_no : ℕ  -- uint32_t
  pub timestamp_ns : ℕ  -- uint64_t
  pub symbol_id : ℕ  -- uint16_t

pub record TradePay : Type 0 where
  pub price : ℕ  -- double
  pub quantity : ℕ  -- uint32_t

pub record QuotePay : Type 0 where
  pub bid_price : ℕ  -- double
  pub bid_qty : ℕ  -- uint32_t
  pub ask_price : ℕ  -- double
  pub ask_qty : ℕ  -- uint32_t

pub record TradeMsg : Type 0 where
  pub header : MsgHeader
  pub payload : TradePay
  pub checksum : ℕ  -- uint32_t

pub record QuoteMsg : Type 0 where
  pub header : MsgHeader
  pub payload : QuotePay
  pub checksum : ℕ  -- uint32_t

pub record HeartbeatMsg : Type 0 where
  pub header : MsgHeader
  pub checksum : ℕ  -- uint32_t

abbrev pub sizeof_header : ℕ
sizeof_header = 16

abbrev pub sizeof_trade : ℕ
sizeof_trade = 32

abbrev pub sizeof_quote : ℕ
sizeof_quote = 44

abbrev pub sizeof_heartbeat : ℕ
sizeof_heartbeat = 20

abbrev pub max_msg_size : ℕ
max_msg_size = sizeof_quote

-- The loop at index `i`, over the bytes that it has not reached.
unfoldable pub checksum_from : ℕ → ℕ → List ℕ → ℕ
checksum_from i cs [] = cs
checksum_from i cs (b ∷ bs) = checksum_from (i + 1) (bit_xor cs (u32 (b * 2 ^ (i % 4 * 8)))) bs

-- `compute_checksum(data, len)`, where the list is `data[0..len)`.
unfoldable pub compute_checksum : List ℕ → ℕ
unfolding checksum_from
compute_checksum bs = checksum_from 0 0 bs

unfoldable pub msg_total_size : ℕ → ℕ
msg_total_size t =
    if t == msg_trade
    then sizeof_trade
    else if t == msg_quote
    then sizeof_quote
    else if t == msg_heartbeat
    then sizeof_heartbeat
    else 0

-- The memory images, up to the checksum for a message.
unfoldable pub header_bytes : MsgHeader → List ℕ
header_bytes h =
    le_bytes 2 h.msg_type
    ++ (le_bytes 4 h.seq_no ++ (le_bytes 8 h.timestamp_ns ++ le_bytes 2 h.symbol_id))

unfoldable pub trade_pay_bytes : TradePay → List ℕ
trade_pay_bytes p = le_bytes 8 p.price ++ le_bytes 4 p.quantity

unfoldable pub quote_pay_bytes : QuotePay → List ℕ
quote_pay_bytes p =
    le_bytes 8 p.bid_price
    ++ (le_bytes 4 p.bid_qty ++ (le_bytes 8 p.ask_price ++ le_bytes 4 p.ask_qty))

-- A message of any of the three kinds.
pub data Message : Type 0 where
  trade : TradeMsg → Message
  quote : QuoteMsg → Message
  heartbeat : HeartbeatMsg → Message

abbrev pub header_of : Message → MsgHeader
header_of (trade m) = m.header
header_of (quote m) = m.header
header_of (heartbeat m) = m.header

abbrev pub checksum_of : Message → ℕ
checksum_of (trade m) = m.checksum
checksum_of (quote m) = m.checksum
checksum_of (heartbeat m) = m.checksum

unfoldable pub payload_bytes : Message → List ℕ
payload_bytes (trade m) = trade_pay_bytes m.payload
payload_bytes (quote m) = quote_pay_bytes m.payload
payload_bytes (heartbeat m) = []

unfoldable pub body_bytes : Message → List ℕ
body_bytes m = header_bytes (header_of m) ++ payload_bytes m

unfoldable pub message_bytes : Message → List ℕ
message_bytes m = body_bytes m ++ le_bytes 4 (checksum_of m)

-- The field of `w` bytes at offset `o`, as a `reinterpret_cast` or a `memcpy` reads it.
unfoldable pub field_at : ℕ → ℕ → List ℕ → ℕ
field_at o w bs = le_value (take w (drop o bs))

unfoldable pub read_header : List ℕ → MsgHeader
unfolding field_at
read_header bs = record {
  msg_type = field_at 0 2 bs;
  seq_no = field_at 2 4 bs;
  timestamp_ns = field_at 6 8 bs;
  symbol_id = field_at 14 2 bs;
}

unfoldable pub read_trade : List ℕ → TradeMsg
unfolding field_at read_header
read_trade bs = record {
  header = read_header bs;
  payload = record { price = field_at 16 8 bs; quantity = field_at 24 4 bs };
  checksum = field_at 28 4 bs;
}

unfoldable pub read_quote : List ℕ → QuoteMsg
unfolding field_at read_header
read_quote bs = record {
  header = read_header bs;
  payload = record {
    bid_price = field_at 16 8 bs;
    bid_qty = field_at 24 4 bs;
    ask_price = field_at 28 8 bs;
    ask_qty = field_at 36 4 bs;
  };
  checksum = field_at 40 4 bs;
}
