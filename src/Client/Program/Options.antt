-- ===== src/Client/Program/Options.antt =====
-- The options of the client, written as arguments and read back.
use market_data_handle.Prelude.{
  ℕ, ◌≡◌, refl, ◌∙◌, Bool, true, false, ◌||◌, List, [], ◌∷◌, IsU16, IsU64, if◌then◌else◌, arith,
}
use market_data_handle.Text.{codes, to_string, value}
use market_data_handle.Text.Decimal.{stoul-to_string, stoi_u16-to_string}
use market_data_handle.Arguments.{parse_args, parse_args_option}
use market_data_handle.Client.Program.{
  ClientOptions, client_settings, set_host, set_port, set_symbols,
}

-- The options as a command line.
abbrev pub client_line : ClientOptions → List (List ℕ)
client_line o =
    codes "--host"
    ∷ o.host
    ∷ codes "--port"
    ∷ to_string o.port
    ∷ codes "--symbols"
    ∷ to_string o.num_sym
    ∷ (if o.no_viz then codes "--no-viz" ∷ [] else [])

parse_no_viz :
    (off : Bool) (o : ClientOptions)
    → parse_args client_settings (if off then codes "--no-viz" ∷ [] else []) o
      ≡ value (record o { no_viz = o.no_viz || off })
unfolding parse_args
parse_no_viz true o = ground arith
parse_no_viz false o = ground arith

-- Whatever the options are at first: arguments that name any host, even one that looks like an
-- option, a port below 2^16 and a number of symbols below 2^64, and perhaps --no-viz, set just these;
-- the dashboard stays off where it was.
pub parse_args-client_line :
    (o first : ClientOptions)
    → IsU16 o.port
    → IsU64 o.num_sym
    → parse_args client_settings (client_line o) first
      ≡ value (record o { no_viz = first.no_viz || o.no_viz })
parse_args-client_line o first port_fits symbols_fit =
    let a : ClientOptions = record first { host = o.host } in
    let b : ClientOptions = record a { port = o.port } in
    let c : ClientOptions = record b { num_sym = o.num_sym } in
    parse_args_option client_settings (codes "--host") o.host _ first a set_host refl refl
    ∙ parse_args_option client_settings (codes "--port") (to_string o.port) _ a b set_port refl
        (rw (stoi_u16-to_string o.port port_fits) refl)
    ∙ parse_args_option client_settings (codes "--symbols") (to_string o.num_sym) _ b c set_symbols
        refl (rw (stoul-to_string o.num_sym symbols_fit) refl)
    ∙ parse_no_viz o.no_viz c
