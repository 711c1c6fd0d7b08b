-- ===== src/Client/Program.antt =====
-- src/client/feed_handler.cpp: the arguments of `main`, the names of the symbols, the dashboard's
-- thread, and what is printed and saved at the end. Allocation is a parameter where `main` asks for
-- room by a number from the command line: whether `reserve` returns or throws.
pub mod Dashboard
pub mod Names
pub mod Options
pub mod Ends
mod Examples
use market_data_handle.Prelude.{
  ℕ, zero, suc, ◌+◌, ◌/◌, Bool, true, false, none, some, List, [], ◌∷◌, ◌++◌, ◌==◌, if◌then◌else◌,
  ltb, leb, ◌||◌, Option, length, get_or, replicate,
}
use market_data_handle.Text.{
  codes, same, to_string, Read, value, invalid_argument, out_of_range, and_then, stoi_u16, stoul,
}
use market_data_handle.Arguments.{Settings, parse_args}
use market_data_handle.Parser
use market_data_handle.Parser.{Parser, Stats}
use market_data_handle.Latency
use market_data_handle.Latency.{LatencyTracker, get_stats}
use market_data_handle.Latency.Report.{export_csv, micro}
use market_data_handle.Cache
use market_data_handle.Cache.{max_symbols}
use market_data_handle.Client.Display.Lifetime.{
  Visualizer, init, start, store_stop, join, loop_steps,
}
use market_data_handle.Client.{Client}
use market_data_handle.Client.Kernel.{Kernel}
use market_data_handle.Client.Socket
use market_data_handle.Client.Socket.{Retry, disconnect}
use market_data_handle.Client.Session.{
  Feed, Run, returned, reconnecting, fault, no_fuel, recv_buf_size, main_loop,
}

abbrev pub nse_names : List (List ℕ)
nse_names =
    codes "RELIANCE"
    ∷ codes "TCS"
    ∷ codes "INFY"
    ∷ codes "HDFC"
    ∷ codes "ICICIBANK"
    ∷ codes "HDFCBANK"
    ∷ codes "BAJFINANCE"
    ∷ codes "WIPRO"
    ∷ codes "SBIN"
    ∷ codes "BHARTIARTL"
    ∷ codes "AXISBANK"
    ∷ codes "ADANIENT"
    ∷ codes "ADANIPORTS"
    ∷ codes "ASIANPAINT"
    ∷ codes "BAJAJFINSV"
    ∷ codes "BPCL"
    ∷ codes "BRITANNIA"
    ∷ codes "CIPLA"
    ∷ codes "COALINDIA"
    ∷ codes "DIVISLAB"
    ∷ codes "DRREDDY"
    ∷ codes "EICHERMOT"
    ∷ codes "GRASIM"
    ∷ codes "HCLTECH"
    ∷ codes "HDFCLIFE"
    ∷ codes "HEROMOTOCO"
    ∷ codes "HINDALCO"
    ∷ codes "HINDUNILVR"
    ∷ codes "ITC"
    ∷ codes "INDUSINDBK"
    ∷ codes "JSWSTEEL"
    ∷ codes "KOTAKBANK"
    ∷ codes "LT"
    ∷ codes "M&M"
    ∷ codes "MARUTI"
    ∷ codes "NESTLEIND"
    ∷ codes "NTPC"
    ∷ codes "ONGC"
    ∷ codes "POWERGRID"
    ∷ codes "SBILIFE"
    ∷ codes "SHREECEM"
    ∷ codes "SUNPHARMA"
    ∷ codes "TATACONSUM"
    ∷ codes "TATAMOTORS"
    ∷ codes "TATASTEEL"
    ∷ codes "TECHM"
    ∷ codes "TITAN"
    ∷ codes "ULTRACEMCO"
    ∷ codes "UPL"
    ∷ codes "VEDL"
    ∷ []

-- The name of symbol `i`.
unfoldable pub symbol_name : ℕ → List ℕ
symbol_name i =
    if ltb i (length nse_names) then get_or nse_names i [] else codes "SYM" ++ to_string i

-- The loop, from symbol `i` on with `n` rounds left.
unfoldable pub names_from : ℕ → ℕ → List (List ℕ)
unfolding symbol_name
names_from zero i = []
names_from (suc n) i = symbol_name i ∷ names_from n (suc i)

-- `none`: `names.reserve(n)` has thrown.
unfoldable pub make_symbol_names : (ℕ → Bool) → ℕ → Option (List (List ℕ))
unfolding names_from
make_symbol_names reserve n = if reserve n then some (names_from n 0) else none

pub record ClientOptions : Type 0 where
  pub host : List ℕ
  pub port : ℕ  -- uint16_t
  pub num_sym : ℕ  -- size_t
  pub no_viz : Bool

abbrev pub defaults : ClientOptions
defaults = record { host = codes "127.0.0.1"; port = 9876; num_sym = 100; no_viz = false }

abbrev pub set_host : List ℕ → ClientOptions → Read ClientOptions
set_host b o = value (record o { host = b })

abbrev pub set_port : List ℕ → ClientOptions → Read ClientOptions
set_port b o = and_then (stoi_u16 b) (λ n. value (record o { port = n }))

abbrev pub set_symbols : List ℕ → ClientOptions → Read ClientOptions
set_symbols b o = and_then (stoul b) (λ n. value (record o { num_sym = n }))

abbrev pub client_settings : Settings ClientOptions
client_settings = record {
  option = λ a.
      if same a (codes "--host")
      then some set_host
      else if same a (codes "--port")
      then some set_port
      else if same a (codes "--symbols")
      then some set_symbols
      else none;
  flag = λ a o. if same a (codes "--no-viz") then record o { no_viz = true } else o;
}

abbrev end_line : List ℕ
end_line = b'\n' ∷ []

-- The lines of the closing statistics.
unfoldable pub final_statistics : LatencyTracker → Stats → List ℕ
final_statistics lat counters =
    let st = get_stats lat in
    let figure : List ℕ → ℕ → List ℕ = λ name ns.
      codes "  Latency "
      ++ name
      ++ to_string (ns / 1000)
      ++ codes " "
      ++ micro
      ++ codes "s"
      ++ end_line in
    let latencies =
      figure (codes "p50     : ") st.p50_ns
      ++ figure (codes "p99     : ") st.p99_ns
      ++ figure (codes "p999    : ") st.p999_ns in
    end_line
    ++ codes "=== Final Statistics ==="
    ++ end_line
    ++ codes "  Total messages  : "
    ++ to_string st.sample_count
    ++ end_line
    ++ codes "  Sequence gaps   : "
    ++ to_string counters.seq_gaps
    ++ end_line
    ++ codes "  Bad checksums   : "
    ++ to_string counters.bad_checksums
    ++ end_line
    ++ (if ltb 0 st.sample_count then latencies else [])
    ++ codes "  Histogram saved : latency_histogram.csv"
    ++ end_line

-- The dashboard from `start` to the end of `stop`, unless `--no-viz` was given: its thread makes
-- `steps` steps before `stop` lowers the flag, and three more. `none` if the join still blocked then.
unfoldable pub dashboard : Bool → ℕ → Option Visualizer
unfolding start store_stop join loop_steps
dashboard no_viz steps = elim (if no_viz then some init else start init) [
  | none ↦ none
  | some viz ↦ join (loop_steps 3 (store_stop (loop_steps steps viz)))
]

-- Whether what was drawn stayed in the cache: a frame takes a snapshot of each symbol with a name, and
-- the first to leave the array is number `MAX_SYMBOLS`.
unfoldable pub drawn_within : Visualizer → List (List ℕ) → Bool
drawn_within viz names = viz.frames == 0 || leb (length names) max_symbols

-- How the process ends: by an exception, of a conversion or of `reserve`; by leaving an array; or by
-- returning 0 with what it printed at the end and the contents of the CSV file. `running_on` is a
-- process that has not ended within the fuel.
pub data ClientEnd (W : Type 0) : Type 0 where
  terminated : ClientEnd W
  crashed : ClientEnd W
  running_on : ClientEnd W
  exited : List ℕ → List ℕ → W → ClientEnd W

abbrev pub retry_of : ClientOptions → Retry
retry_of o = record { host = o.host; port = o.port; max_retries = 10; base_backoff_ms = 200 }

-- The locals of `main` at the loop over connections.
abbrev pub start_feed : {W : Type 0} → W → Feed W
start_feed w = record {
  sock = Socket.init;
  world = w;
  parser = Parser.init;
  client = record { cache = Cache.init; lat = Latency.init; total_messages = 0; callbacks = 0 };
  recv_buf = replicate recv_buf_size 0;
}

module _ {W : Type 0} (k : Kernel W) where
  -- What follows the loop, the destructor of `retry` included.
  unfoldable pub close_down : Feed W → ClientEnd W
  unfolding final_statistics disconnect
  close_down σ =
      let gone = disconnect k (σ.sock, σ.world) in
      exited (final_statistics σ.client.lat σ.parser.stats) (export_csv σ.client.lat) gone.1

  -- `steps` as for `dashboard`.
  unfoldable pub main : (ℕ → Bool) → (ℕ → ℕ) → (W → Bool) → ℕ → ℕ → List (List ℕ) → W → ClientEnd W
  unfolding close_down make_symbol_names dashboard drawn_within
  main reserve clock running steps fuel argv w = elim (parse_args client_settings argv defaults) [
    | invalid_argument ↦ terminated
    | out_of_range ↦ terminated
    | value o ↦ elim (make_symbol_names reserve o.num_sym) [
      | none ↦ terminated
      | some names ↦ elim (dashboard o.no_viz steps) [
        | none ↦ running_on
        | some viz ↦
            if drawn_within viz names
            then elim (main_loop k clock running fuel (retry_of o) o.num_sym (start_feed w)) [
              | returned σ ↦ close_down σ
              | reconnecting σ ↦ running_on
              | fault ↦ crashed
              | no_fuel ↦ running_on
            ]
            else crashed
      ]
    ]
  ]
