-- ===== src/Server/Program/Examples.antt =====
-- The server with its arguments.
use mathlib.Core.Option
use market_data_handle.Prelude.{ℕ, ◌≡◌, refl, true, List, [], ◌∷◌, arith}
use market_data_handle.Text.{codes, value, stoul, stoi_u16}
use market_data_handle.Arguments.{parse_args}
use market_data_handle.Server.Exchange.{run_all}
use market_data_handle.Server.Listener.{start}
use market_data_handle.Server.Generator.{init, tick_source}
use market_data_handle.Server.Exchange.Examples.{plain, plain_laws, send, rounds}
use market_data_handle.Server.Listener.Examples.{server_kernel, server_descriptors, outside}
use market_data_handle.Server.Program.{
  ServerOptions, defaults, server_settings, main, terminated, undefined,
}
use market_data_handle.Server.Program.Options.{command_line, parse_args-command_line}
use market_data_handle.Server.Program.Ends.{Ended, main-Ended}

abbrev three_symbols : ServerOptions
three_symbols = record { port = 7000; num_sym = 3; tick_rate = 500; fault_inj = true }

parse_args-command_line_example :
    parse_args server_settings (command_line three_symbols) defaults ≡ value three_symbols
parse_args-command_line_example =
    parse_args-command_line three_symbols defaults (omega arith) (omega arith) (omega arith)

-- A number with a blank in front and letters behind; an option at the end without its argument.
abbrev odd_argv : List (List ℕ)
odd_argv = codes "--symbols" ∷ codes " 12x" ∷ codes "-v" ∷ codes "--port" ∷ []

odd_argv_run :
    parse_args server_settings odd_argv defaults ≡ value (record defaults { num_sym = 12 })
unfolding parse_args stoul
odd_argv_run = refl

-- The port wraps to 16 bits, and a minus sign takes the number of symbols from 2^64.
wraps_run :
    parse_args server_settings
      (codes "--port" ∷ codes "70000" ∷ codes "--symbols" ∷ codes "-1" ∷ [])
      defaults
    ≡ value (record defaults { port = 4464; num_sym = 18446744073709551615 })
unfolding parse_args stoul stoi_u16
wraps_run = refl

main_no_number :
    main server_kernel
      (tick_source plain 1)
      send
      (λ n. init plain n 0)
      (codes "--port" ∷ codes "http" ∷ [])
      []
      (outside, λ fd. [])
    ≡ terminated
unfolding main parse_args stoi_u16
main_no_number = refl

main_no_symbols :
    main server_kernel
      (tick_source plain 1)
      send
      (λ n. init plain n 0)
      (codes "--symbols" ∷ codes "0" ∷ [])
      rounds
      (record outside { accepts = true ∷ true ∷ [] }, λ fd. [])
    ≡ undefined
unfolding main parse_args stoul start run_all Option.bind
main_no_symbols = refl

main-Ended_example :
    Ended server_kernel server_descriptors
      (record defaults { num_sym = 12 })
      outside
      3
      (main server_kernel
        (tick_source plain 1)
        send
        (λ n. init plain n 0)
        odd_argv
        rounds
        (outside, λ fd. []))
main-Ended_example =
    main-Ended server_kernel server_descriptors send plain 1 plain_laws 0 odd_argv
      (record defaults { num_sym = 12 }) rounds outside (λ fd. []) 3 odd_argv_run (omega arith)
      (omega arith)
