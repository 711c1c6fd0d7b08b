-- ===== src/Server/Program.antt =====
-- src/server/main_server.cpp: the arguments, and the simulator from its constructor to its
-- destructor. The events and the clock of each round are a parameter, as in `run_all`; the signal
-- handler calls `stop`, which ends the rounds.
pub mod Options
pub mod Ends
mod Examples
use market_data_handle.Prelude.{
  ℕ, Bool, true, false, Option, none, some, List, [], if◌then◌else◌, u32,
}
use market_data_handle.Text.{
  codes, same, Read, value, invalid_argument, out_of_range, and_then, stoi_u16, stoul,
}
use market_data_handle.Arguments.{Settings, parse_args}
use market_data_handle.Server.Exchange.{TickSource, SendResult, Exchange, Round, run_all}
use market_data_handle.Server.Listener.{ServerKernel, init, set_tick_rate, start, destroy}

pub record ServerOptions : Type 0 where
  pub port : ℕ  -- uint16_t
  pub num_sym : ℕ  -- size_t
  pub tick_rate : ℕ  -- uint32_t
  pub fault_inj : Bool

abbrev pub defaults : ServerOptions
defaults = record { port = 9876; num_sym = 100; tick_rate = 100000; fault_inj = false }

abbrev pub set_port : List ℕ → ServerOptions → Read ServerOptions
set_port b o = and_then (stoi_u16 b) (λ n. value (record o { port = n }))

abbrev pub set_symbols : List ℕ → ServerOptions → Read ServerOptions
set_symbols b o = and_then (stoul b) (λ n. value (record o { num_sym = n }))

abbrev pub set_rate : List ℕ → ServerOptions → Read ServerOptions
set_rate b o = and_then (stoul b) (λ n. value (record o { tick_rate = u32 n }))

abbrev pub server_settings : Settings ServerOptions
server_settings = record {
  option = λ arg.
      if same arg (codes "--port")
      then some set_port
      else if same arg (codes "--symbols")
      then some set_symbols
      else if same arg (codes "--rate")
      then some set_rate
      else none;
  flag = λ arg o. if same arg (codes "--fault") then record o { fault_inj = true } else o;
}

-- How the process ends: by an exception that nothing catches, by a division by zero or an access
-- outside the generator's vector, or with a code.
pub data ServerEnd (W N : Type 0) : Type 0 where
  terminated : ServerEnd W N
  undefined : ServerEnd W N
  exited : ℕ → W → N → ServerEnd W N

-- The constructor and `enable_fault_injection`.
abbrev pub simulator : {G : Type 0} → (ℕ → G) → ServerOptions → Exchange G
simulator make_gen o = record {
  symbol_count = o.num_sym;
  gen = make_gen o.num_sym;
  clients = [];
  slow_clients = [];
  fault_injection = o.fault_inj;
  seq_no = 1;
}

module _ {W G N : Type 0} (k : ServerKernel W) (src : TickSource G)
    (send : ℕ → List ℕ → N → SendResult × N) (make_gen : ℕ → G) where
  -- The `try` block and its handler. The destructor runs when the block is left.
  unfoldable pub serve : ServerOptions → List Round → W × N → ServerEnd W N
  serve o rounds (w, net) =
      let (err, held) = start k (set_tick_rate o.tick_rate (init o.port), w) in
      elim err [
        | some e ↦ exited 1 (destroy k held) net
        | none ↦ elim (run_all src send rounds (simulator make_gen o, net, 0)) [
          | none ↦ undefined
          | some (x, after, t) ↦ exited 0 (destroy k held) after
        ]
      ]

  -- The conversions of the arguments stand outside the `try` block.
  unfoldable pub main : List (List ℕ) → List Round → W × N → ServerEnd W N
  unfolding serve
  main argv rounds σ = elim (parse_args server_settings argv defaults) [
    | invalid_argument ↦ terminated
    | out_of_range ↦ terminated
    | value o ↦ serve o rounds σ
  ]
