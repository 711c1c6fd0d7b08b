-- ===== src/Parser/Step.antt =====
-- One round of the parser's loop.
use market_data_handle.Prelude.{
  ℕ, ◌+◌, ◌-◌, ◌≤◌, ◌<◌, ◌≡◌, none, some, List, ◌++◌, length, drop, arith, length-drop,
  length-append, take-append, drop-append,
}
use market_data_handle.Protocol.{sizeof_header, max_msg_size, msg_total_size, field_at, read_header}
use market_data_handle.Protocol.Layout.{msg_total_size-le, msg_total_size-ge}
use market_data_handle.Parser.{Stats, Handlers, Call, step}

-- A round that goes on takes at least one byte and at most what is there.
pub step_shrinks :
    (h : Handlers) (s s' : Stats) (bs bs' : List ℕ) (cs : List Call)
    → step h s bs ≡ some (s', bs', cs)
    → length bs' < length bs
unfolding step
step_shrinks h s s' bs bs' cs e =
    ground (arith, length-drop 1 bs, length-drop (msg_total_size (read_header bs).msg_type) bs)

-- The loop is left only with less than one message of the largest kind.
pub step-none_lt :
    (h : Handlers) (s : Stats) (bs : List ℕ) → step h s bs ≡ none → length bs < max_msg_size
unfolding step
step-none_lt h s bs e = ground (arith, msg_total_size-le (read_header bs).msg_type)

field_at-append :
    (o w : ℕ) (xs ys : List ℕ) → o + w ≤ length xs → field_at o w (xs ++ ys) ≡ field_at o w xs
unfolding field_at
field_at-append o w xs ys h = rw (
  drop-append o xs ys (omega arith),
  take-append w (drop o xs) ys (omega (arith, length-drop o xs)),
)

read_header-append :
    (xs ys : List ℕ) → sizeof_header ≤ length xs → read_header (xs ++ ys) ≡ read_header xs
unfolding read_header
read_header-append xs ys h = λ i. record {
  msg_type = field_at-append 0 2 xs ys (omega arith) i;
  seq_no = field_at-append 2 4 xs ys (omega arith) i;
  timestamp_ns = field_at-append 6 8 xs ys (omega arith) i;
  symbol_id = field_at-append 14 2 xs ys (omega arith) i;
}

-- A round that goes on does the same with more bytes behind.
pub step-append :
    (h : Handlers) (s s' : Stats) (xs ys xs' : List ℕ) (cs : List Call)
    → step h s xs ≡ some (s', xs', cs)
    → step h s (xs ++ ys) ≡ some (s', xs' ++ ys, cs)
unfolding step
step-append h s s' xs ys xs' cs e =
    let size : ℕ = msg_total_size (read_header xs).msg_type in
    ground (
      arith,
      length-append xs ys,
      read_header-append xs ys,
      drop-append 1 xs ys,
      drop-append size xs ys,
      take-append size xs ys,
      take-append (size - 4) xs ys,
      field_at-append (size - 4) 4 xs ys,
      msg_total_size-ge (read_header xs).msg_type,
    )
