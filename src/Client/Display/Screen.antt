-- ===== src/Client/Display/Screen.antt =====
-- src/client/visualizer.cpp: the bytes that `render` writes. The arithmetic and the printing of
-- double, the sorting function and the clock are parameters. `std::setfill('0')` of the line with the
-- uptime stays set on the stream, so that everything below it is filled with zeros.
pub mod Table
use market_data_handle.Prelude.{
  ℕ, ◌+◌, ◌/◌, Bool, ◌&&◌, Option, none, some, List, [], ◌∷◌, ◌++◌, concat, map, replicate, ◌==◌,
  if◌then◌else◌, ltb, length, take, get_or,
}
use market_data_handle.Text.{codes, to_string, left, right}
use market_data_handle.Cache.{SymbolCache, MarketData, get_snapshot}
use market_data_handle.Latency.{LatencyTracker, get_stats}
use market_data_handle.Latency.Report.{micro, dash, bar_edge}
use market_data_handle.Client.Display.{Entry, ranked, fmt_large, summary}

-- What `render` does with double. `truncated` is the cast to int and back.
pub record Figures (D : Type 0) : Type 0 where
  pub of_bits : ℕ → D
  pub zero : D
  pub hundred : D
  pub gt : D → D → Bool
  pub ge : D → D → Bool
  pub sub : D → D → D
  pub mul : D → D → D
  pub div : D → D → D
  pub truncated : D → D
  pub fixed2 : D → List ℕ  -- std::fixed << std::setprecision(2)
  pub to_text : D → List ℕ  -- std::to_string

abbrev pub escape : List ℕ → List ℕ
escape s = 0x1b ∷ s

abbrev pub green : List ℕ
green = escape (codes "[32m")

abbrev pub red : List ℕ
red = escape (codes "[31m")

abbrev pub yellow : List ℕ
yellow = escape (codes "[33m")

abbrev pub cyan : List ℕ
cyan = escape (codes "[36m")

abbrev pub bold : List ℕ
bold = escape (codes "[1m")

abbrev pub reset : List ℕ
reset = escape (codes "[0m")

abbrev pub clear : List ℕ
clear = escape (codes "[2J") ++ escape (codes "[H")

abbrev pub newline : List ℕ
newline = b'\n' ∷ []

-- The fill of the stream behind the line with the uptime.
abbrev pub fill : ℕ
fill = b'0'

-- A line of the table: its columns as they are padded, and the colour of its prices.
pub record Line : Type 0 where
  pub colour : List ℕ
  pub name : List ℕ
  pub bid : List ℕ
  pub ask : List ℕ
  pub last : List ℕ
  pub change : List ℕ
  pub updates : List ℕ

-- The name of a symbol, cut to 12 bytes.
unfoldable pub name_of : List (List ℕ) → ℕ → List ℕ
name_of names id =
    let name = if ltb id (length names) then get_or names id [] else codes "SYM" ++ to_string id in
    if ltb 12 (length name) then take 12 name else name

module _ {D : Type 0} (fig : Figures D) where
  open fig use {of_bits, zero, hundred, gt, ge, sub, mul, div, truncated, fixed2, to_text}

  unfoldable pub change_text : D → D → List ℕ
  change_text bid ask =
      let change =
        if gt bid zero && gt ask zero then mul (div (sub ask bid) bid) hundred else zero in
      let up = ge change zero in
      (if up then green else red)
      ++ (if up then codes "+" else [])
      ++ take 5 (to_text (div (truncated (mul change hundred)) hundred))
      ++ codes "%"
      ++ reset

  unfoldable pub table_line : List (List ℕ) → ℕ → MarketData → Line
  unfolding name_of change_text
  table_line names id s =
      let bid = of_bits s.best_bid in
      let ask = of_bits s.best_ask in
      let last = of_bits s.last_traded_price in
      record {
        colour = if ge ask bid then green else red;
        name = left fill 13 (name_of names id);
        bid = right fill 12 (fixed2 bid);
        ask = right fill 12 (fixed2 ask);
        last = right fill 12 (fixed2 (if gt last zero then last else bid));
        change = right fill 11 (change_text bid ask);
        updates = right fill 10 (fmt_large s.update_count);
      }

  -- The loop over `ranked`. A symbol without updates has no line. `none` as in `collect`.
  unfoldable pub table : ℕ → List (List ℕ) → SymbolCache → List Entry → Option (List Line)
  unfolding table_line
  table rounds names cache [] = some []
  table rounds names cache (e ∷ es) = elim (get_snapshot rounds cache e.id) [
    | none ↦ none
    | some snap ↦ elim (table rounds names cache es) [
      | none ↦ none
      | some ls ↦
          some
            (if snap.fields.update_count == 0 then ls else table_line names e.id snap.fields ∷ ls)
    ]
  ]

  unfoldable pub shown_table :
      (List Entry → List Entry) → ℕ → List (List ℕ) → SymbolCache → Option (List Line)
  unfolding table
  shown_table sort rounds names cache = elim (ranked sort rounds cache (length names)) [
    | none ↦ none
    | some es ↦ table rounds names cache es
  ]

unfoldable pub show_line : Line → List ℕ
show_line l =
    codes " "
    ++ l.colour
    ++ bold
    ++ l.name
    ++ reset
    ++ l.colour
    ++ l.bid
    ++ l.ask
    ++ l.last
    ++ reset
    ++ l.change
    ++ l.updates
    ++ newline

abbrev pub double_rule : List ℕ
double_rule = concat (replicate 67 (0xe2 ∷ 0x95 ∷ 0x90 ∷ [])) ++ newline

abbrev pub rule : List ℕ
rule = codes " " ++ concat (replicate 66 (0xe2 ∷ 0x94 ∷ 0x80 ∷ [])) ++ newline

-- Everything above the lines of the table.
unfoldable pub heading : ℕ → ℕ → List ℕ
unfolding summary
heading secs messages =
    let s = summary secs messages in
    let two = λ (n : ℕ). right fill 2 (to_string n) in
    clear
    ++ bold
    ++ cyan
    ++ double_rule
    ++ codes "         NSE Market Data Feed Handler  "
    ++ dash
    ++ codes "  Live Dashboard"
    ++ newline
    ++ double_rule
    ++ reset
    ++ codes " Uptime: "
    ++ two s.hours
    ++ codes ":"
    ++ two s.minutes
    ++ codes ":"
    ++ two s.seconds
    ++ codes "  "
    ++ bar_edge
    ++ codes "  Messages: "
    ++ s.total
    ++ codes "  "
    ++ bar_edge
    ++ codes "  Rate: "
    ++ s.rate
    ++ codes " msg/s"
    ++ newline
    ++ newline
    ++ bold
    ++ left fill 14 (codes " Symbol")
    ++ right fill 12 (codes "Bid")
    ++ right fill 12 (codes "Ask")
    ++ right fill 12 (codes "LTP")
    ++ right fill 12 (codes "Chg%")
    ++ right fill 10 (codes "Updates")
    ++ newline
    ++ reset
    ++ rule

-- Everything below them.
unfoldable pub statistics : ℕ → ℕ → LatencyTracker → List ℕ
unfolding summary
statistics secs messages lat =
    let st = get_stats lat in
    let in_micros = λ (ns : ℕ). to_string (ns / 1000) ++ micro ++ codes "s" in
    let latencies =
      codes "  End-to-End Latency : p50="
      ++ in_micros st.p50_ns
      ++ codes "  p99="
      ++ in_micros st.p99_ns
      ++ codes "  p999="
      ++ in_micros st.p999_ns
      ++ newline
      ++ codes "  Min/Max            : "
      ++ in_micros st.min_ns
      ++ codes " / "
      ++ in_micros st.max_ns
      ++ newline in
    newline
    ++ codes " "
    ++ bold
    ++ codes "Statistics:"
    ++ reset
    ++ newline
    ++ codes "  Parser Throughput  : "
    ++ (summary secs messages).rate
    ++ codes " msg/s"
    ++ newline
    ++ (if ltb 0 st.sample_count then latencies else [])
    ++ newline
    ++ codes " "
    ++ yellow
    ++ codes "Press Ctrl+C to quit"
    ++ reset
    ++ newline

-- `secs` is the time since the start in whole seconds.
unfoldable pub render :
    {D : Type 0}
    → Figures D
    → (List Entry → List Entry)
    → ℕ
    → List (List ℕ)
    → SymbolCache
    → LatencyTracker
    → ℕ
    → ℕ
    → Option (List ℕ)
unfolding shown_table heading statistics show_line
render fig sort rounds names cache lat secs messages =
    elim (shown_table fig sort rounds names cache) [
      | none ↦ none
      | some ls ↦
          some (heading secs messages ++ concat (map show_line ls) ++ statistics secs messages lat)
    ]
