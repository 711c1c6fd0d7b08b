-- ===== src/Client/Program/Examples.antt =====
-- The client with its arguments.
use market_data_handle.Prelude.{
  ℕ, ◌≡◌, ◌<◌, ◌^◌, ◌⊎◌, inl, get_or, refl, Bool, true, false, ltb, none, some, List, [], ◌∷◌,
  length, arith,
}
use market_data_handle.Text.{codes, value, to_string, digits}
use market_data_handle.Arguments.{parse_args}
use market_data_handle.Parser.{zero_stats}
use market_data_handle.Latency
use market_data_handle.Latency.Report.{export_csv}
use market_data_handle.Client.Kernel.{Kernel}
use market_data_handle.Client.Socket
use market_data_handle.Client.Socket.{RetryEnd, connect_with_retry, disconnect}
use market_data_handle.Client.Socket.Local.{Local, local_kernel, local_descriptors}
use market_data_handle.Client.Program.{
  ClientOptions, defaults, client_settings, exited, final_statistics, retry_of, main,
  make_symbol_names, symbol_name,
}
use market_data_handle.Client.Program.Options.{client_line, parse_args-client_line}
use market_data_handle.Client.Program.Names.{make_symbol_names-inj}
use market_data_handle.Client.Program.Ends.{LeavesNothing, main-LeavesNothing, main_gives_up}

-- A host that looks like an option is an argument all the same.
abbrev odd_host : ClientOptions
odd_host = record { host = codes "--port"; port = 7000; num_sym = 3; no_viz = true }

client_line_run : parse_args client_settings (client_line odd_host) defaults ≡ value odd_host
client_line_run = parse_args-client_line odd_host defaults (omega arith) (omega arith)

symbol_name_run : symbol_name 61 ≡ codes "SYM61"
unfolding symbol_name to_string digits
symbol_name_run = refl

-- `reserve` as libstdc++ has it: at most 2^63 - 1 bytes, 32 for each string.
abbrev reserve : ℕ → Bool
reserve n = ltb n (2 ^ 58)

make_symbol_names-inj_example :
    ((reserve 60 ≡ false) × (make_symbol_names reserve 60 ≡ none))
    ⊎ ((names : List (List ℕ)) × (make_symbol_names reserve 60 ≡ some names)
        × (length names ≡ 60)
        × ((i j : ℕ) → i < 60 → j < 60 → get_or names i [] ≡ get_or names j [] → i ≡ j))
make_symbol_names-inj_example = make_symbol_names-inj reserve 60 (omega arith)

abbrev no_address : Kernel Local
no_address = record local_kernel { parse_address = λ host. none }

abbrev outside : Local
outside = record { open_fds = 2 ∷ 1 ∷ 0 ∷ []; accepts = []; answers = [] }

abbrev nowhere : List (List ℕ)
nowhere = codes "--host" ∷ codes "localhost" ∷ codes "--no-viz" ∷ []

nowhere_run :
    parse_args client_settings nowhere defaults
    ≡ value (record defaults { host = codes "localhost"; no_viz = true })
unfolding parse_args
nowhere_run = refl

main_gives_up_example :
    let o : ClientOptions = record defaults { host = codes "localhost"; no_viz = true } in
    (end : RetryEnd Local) × (connect_with_retry no_address 11 (retry_of o) (Socket.init, outside)
      ≡ some end)
    × (length end.waits ≡ 10)
    × (main no_address reserve (λ k. k) (λ w. true) 5 1 nowhere outside
        ≡ exited
            (final_statistics Latency.init zero_stats)
            (export_csv Latency.init)
            (disconnect no_address end.state).1)
main_gives_up_example =
    main_gives_up no_address reserve (λ k. k) (λ w. true) 5 0 nowhere
      (record defaults { host = codes "localhost"; no_viz = true }) outside nowhere_run refl refl
      (inl refl) refl

abbrev loopback : List (List ℕ)
loopback = codes "--symbols" ∷ codes "2" ∷ []

-- One connection, and the flag is cleared as soon as it stands.
main-LeavesNothing_example :
    LeavesNothing local_descriptors
      (record outside { accepts = true ∷ [] })
      (main local_kernel reserve
        (λ k. k)
        (λ w. ltb 0 (length w.accepts))
        5
        9
        loopback
        (record outside { accepts = true ∷ [] }))
main-LeavesNothing_example =
    main-LeavesNothing local_descriptors (record outside { accepts = true ∷ [] }) reserve (λ k. k)
      (λ w. ltb 0 (length w.accepts)) 5 9 loopback
