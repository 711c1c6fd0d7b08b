-- ===== src/Parser.antt =====
-- src/client/parser.h and parser.cpp: the incremental binary parser.
-- `buf` holds the `buf_used_` live bytes of `buf_`. In the loop of `feed` the list is
-- `buf_[offset..buf_used_)`, so `offset += n` drops `n` bytes and the closing `memmove` keeps the rest.
-- The callbacks' effects are the list of the calls made, in order; a null callback makes none.
pub mod Step
pub mod Run
pub mod Stream
pub mod Frames
pub mod Gaps
pub mod Faults
pub mod Recovery
mod Examples
use market_data_handle.Prelude.{
  ℕ, zero, suc, ◌+◌, ◌-◌, ◌*◌, ◌≡◌, Bool, not, ◌&&◌, Option, none, some, List, [], ◌∷◌, ◌++◌, ltb,
  ◌==◌, if◌then◌else◌, length, take, drop, u32, u64, sub32,
}
use market_data_handle.Protocol.{
  msg_trade, msg_quote, msg_heartbeat, sizeof_header, msg_total_size, compute_checksum, field_at,
  read_header,
}

abbrev pub parse_buf_size : ℕ
parse_buf_size = 128 * 1024

-- The counters of the class.
pub record Stats : Type 0 where
  pub last_seq : ℕ  -- uint32_t
  pub total_parsed : ℕ  -- uint64_t
  pub seq_gaps : ℕ  -- uint64_t
  pub bad_checksums : ℕ  -- uint64_t

pub record Parser : Type 0 where
  pub buf : List ℕ
  pub stats : Stats

-- Which of the three `std::function` arguments of `feed` are set.
pub record Handlers : Type 0 where
  pub has_trade : Bool
  pub has_quote : Bool
  pub has_heartbeat : Bool

-- A call of a callback, with the bytes `data[0..len)` that it gets.
pub data Call : Type 0 where
  on_trade : List ℕ → Call
  on_quote : List ℕ → Call
  on_heartbeat : List ℕ → Call

abbrev pub zero_stats : Stats
zero_stats = record { last_seq = 0; total_parsed = 0; seq_gaps = 0; bad_checksums = 0 }

abbrev pub init : Parser
init = record { buf = []; stats = zero_stats }

-- `seq_gaps_` after a message numbered `seq`.
unfoldable pub count_gap : Stats → ℕ → ℕ
count_gap s seq =
    let next = u32 (s.last_seq + 1) in
    if ltb 0 s.last_seq && (not (seq == next) && ltb next seq)
    then u64 (s.seq_gaps + sub32 (sub32 seq s.last_seq) 1)
    else s.seq_gaps

unfoldable pub accept : Stats → ℕ → Stats
unfolding count_gap
accept s seq = record s {
  last_seq = seq;
  total_parsed = u64 (s.total_parsed + 1);
  seq_gaps = count_gap s seq;
}

unfoldable pub reject : Stats → Stats
reject s = record s { bad_checksums = u64 (s.bad_checksums + 1) }

-- The `switch` on the message type.
unfoldable pub dispatch : Handlers → ℕ → List ℕ → List Call
dispatch h t frame =
    if t == msg_trade
    then (if h.has_trade then on_trade frame ∷ [] else [])
    else if t == msg_quote
    then (if h.has_quote then on_quote frame ∷ [] else [])
    else if t == msg_heartbeat
    then (if h.has_heartbeat then on_heartbeat frame ∷ [] else [])
    else []

-- One round of the `while` loop; `none` leaves the loop, by its test or by the `break`.
unfoldable pub step : Handlers → Stats → List ℕ → Option (Stats × List ℕ × List Call)
step h s bs =
    let hdr = read_header bs in
    let expected = msg_total_size hdr.msg_type in
    let computed = compute_checksum (take (expected - 4) bs) in
    let wire_cs = field_at (expected - 4) 4 bs in
    if ltb (length bs) sizeof_header
    then none
    else if expected == 0
    then some (s, drop 1 bs, [])
    else if ltb (length bs) expected
    then none
    else if not (computed == wire_cs)
    then some (reject s, drop expected bs, [])
    else some (accept s hdr.seq_no, drop expected bs, dispatch h hdr.msg_type (take expected bs))

pub record Outcome : Type 0 where
  pub stats : Stats
  pub rest : List ℕ
  pub calls : List Call

abbrev pub prepend : List Call → Outcome → Outcome
prepend cs o = record o { calls = cs ++ o.calls }

-- The loop. A round takes a byte at least, so as many rounds as there are bytes are enough.
unfoldable pub run : Handlers → ℕ → Stats → List ℕ → Outcome
run h zero s bs = record { stats = s; rest = bs; calls = [] }
run h (suc fuel) s bs = elim (step h s bs) [
  | none ↦ record { stats = s; rest = bs; calls = [] }
  | some (s', bs', cs) ↦ prepend cs (run h fuel s' bs')
]

-- What the first part of `feed` leaves in the buffer: on overflow, as much of `data` as fits.
unfoldable pub append_data : List ℕ → List ℕ → List ℕ
append_data buf xs =
    let space = parse_buf_size - length buf in
    if ltb parse_buf_size (length buf + length xs)
    then (if ltb 0 space then buf ++ take space xs else buf)
    else buf ++ xs

unfoldable pub feed : Handlers → Parser → List ℕ → Parser × List Call
unfolding append_data
feed h p xs =
    let buf = append_data p.buf xs in
    let o = run h (length buf) p.stats buf in (record { buf = o.rest; stats = o.stats }, o.calls)

unfoldable pub reset : Parser → Parser
reset p = init
