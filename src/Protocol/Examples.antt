-- ===== src/Protocol/Examples.antt =====
-- The laws of the wire format at concrete messages.
use market_data_handle.Prelude.{◌≡◌, refl, [], ◌∷◌}
use market_data_handle.Protocol.{TradeMsg, QuoteMsg, compute_checksum, msg_total_size}

abbrev sample_trade : TradeMsg
sample_trade = record {
  header = record { msg_type = 1; seq_no = 42; timestamp_ns = 1234567890; symbol_id = 7 };
  payload = record { price = 0x40ab_5880_0000_0000; quantity = 250 };
  checksum = 0xdead_beef;
}

abbrev sample_quote : QuoteMsg
sample_quote = record {
  header = record { msg_type = 2; seq_no = 43; timestamp_ns = 1234567999; symbol_id = 8 };
  payload = record {
    bid_price = 0x4059_0000_0000_0000;
    bid_qty = 100;
    ask_price = 0x4059_0666_6666_6666;
    ask_qty = 300;
  };
  checksum = 0x0102_0304;
}

-- Byte 4 falls on byte 0 again.
checksum_lanes : compute_checksum (1 ∷ 2 ∷ 3 ∷ 4 ∷ 0xff ∷ []) ≡ 0x0403_02fe
unfolding compute_checksum
checksum_lanes = refl

-- As tests/test_protocol.cpp: the sizes of the three kinds, and 0 for an unknown one.
size_table :
    (msg_total_size 1 ≡ 32)
    × (msg_total_size 2 ≡ 44)
    × (msg_total_size 3 ≡ 20)
    × (msg_total_size 0xdead ≡ 0)
unfolding msg_total_size
size_table = (refl, refl, refl, refl)
