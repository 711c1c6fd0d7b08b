-- ===== src/Server/Program/Options.antt =====
-- The options of the server, written as arguments and read back.
use market_data_handle.Prelude.{
  ℕ, ◌≡◌, refl, ◌∙◌, Bool, true, false, ◌||◌, List, [], ◌∷◌, IsU16, IsU32, IsU64, if◌then◌else◌,
  arith,
}
use market_data_handle.Text.{codes, to_string, value}
use market_data_handle.Text.Decimal.{stoul-to_string, stoi_u16-to_string}
use market_data_handle.Arguments.{parse_args, parse_args_option}
use market_data_handle.Server.Program.{
  ServerOptions, server_settings, set_port, set_symbols, set_rate,
}

-- The options as a command line.
abbrev pub command_line : ServerOptions → List (List ℕ)
command_line o =
    codes "--port"
    ∷ to_string o.port
    ∷ codes "--symbols"
    ∷ to_string o.num_sym
    ∷ codes "--rate"
    ∷ to_string o.tick_rate
    ∷ (if o.fault_inj then codes "--fault" ∷ [] else [])

parse_fault :
    (fault : Bool) (o : ServerOptions)
    → parse_args server_settings (if fault then codes "--fault" ∷ [] else []) o
      ≡ value (record o { fault_inj = o.fault_inj || fault })
unfolding parse_args
parse_fault true o = ground arith
parse_fault false o = ground arith

-- Whatever the options are at first: arguments that name a port below 2^16, a number of symbols
-- below 2^64 and a rate below 2^32, and perhaps --fault, set just these; fault injection stays on
-- where it was.
pub parse_args-command_line :
    (o first : ServerOptions)
    → IsU16 o.port
    → IsU64 o.num_sym
    → IsU32 o.tick_rate
    → parse_args server_settings (command_line o) first
      ≡ value (record o { fault_inj = first.fault_inj || o.fault_inj })
parse_args-command_line o first port_fits symbols_fit rate_fits =
    let a : ServerOptions = record first { port = o.port } in
    let b : ServerOptions = record a { num_sym = o.num_sym } in
    let c : ServerOptions = record b { tick_rate = o.tick_rate } in
    parse_args_option server_settings (codes "--port") (to_string o.port) _ first a set_port refl
      (rw (stoi_u16-to_string o.port port_fits) refl)
    ∙ parse_args_option server_settings (codes "--symbols") (to_string o.num_sym) _ a b set_symbols
        refl (rw (stoul-to_string o.num_sym symbols_fit) refl)
    ∙ parse_args_option server_settings (codes "--rate") (to_string o.tick_rate) _ b c set_rate refl
        (rw (stoul-to_string o.tick_rate (omega (arith, rate_fits))) (ground (arith, rate_fits)))
    ∙ parse_fault o.fault_inj c
