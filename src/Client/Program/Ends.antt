-- ===== src/Client/Program/Ends.antt =====
-- How the client ends: what it leaves open, and what it prints when it never gets through to a server.
use market_data_handle.Prelude.{
  ℕ, suc, ◌≡◌, refl, ◌∙◌, Bool, true, Option, if◌then◌else◌, Bool-cases, inl, inr, ◌⊎◌, ◌≤◌, none,
  some, List, length, arith,
}
use market_data_handle.Text.{Read, value, invalid_argument, out_of_range}
use market_data_handle.Arguments.{parse_args}
use market_data_handle.Parser.{zero_stats}
use market_data_handle.Latency
use market_data_handle.Latency.Report.{export_csv}
use market_data_handle.Client.Kernel.{Kernel, Descriptors}
use market_data_handle.Client.Socket
use market_data_handle.Client.Socket.{RetryEnd, connect_with_retry, disconnect}
use market_data_handle.Client.Socket.Tidy.{Tidy}
use market_data_handle.Client.Socket.Descriptors.{disconnect-Tidy, disconnect_closed}
use market_data_handle.Client.Session.{Feed, Run, returned, reconnecting, fault, no_fuel}
use market_data_handle.Client.Session.Tidy.{Orderly, main_loop-Orderly}
use market_data_handle.Client.Session.GivingUp.{main_loop_gives_up}
use market_data_handle.Client.Program.{
  ClientEnd, terminated, crashed, running_on, ClientOptions, defaults, client_settings, exited,
  final_statistics, retry_of, start_feed, close_down, main, make_symbol_names, dashboard,
  names_from, drawn_within,
}
use market_data_handle.Client.Program.Dashboard.{dashboard_ends, drawn_within_lem}
use market_data_handle.Client.Program.Names.{length-names_from}
use market_data_handle.Client.Display.Lifetime.{Visualizer}
use market_data_handle.Cache.{max_symbols}

module _ {W : Type 0} {k : Kernel W} (ds : Descriptors k) (w : W) where
  -- Where the process returns, it has open what was open at the start.
  abbrev pub LeavesNothing : ClientEnd W → Type 0
  LeavesNothing terminated = Unit
  LeavesNothing crashed = Unit
  LeavesNothing running_on = Unit
  LeavesNothing (exited out csv after) = (d : ℕ) → ds.is_open after d ≡ ds.is_open w d

  close_down-LeavesNothing :
      (σ : Feed W) → Tidy ds (ds.is_open w) σ.sock σ.world → LeavesNothing (close_down k σ)
  unfolding close_down
  close_down-LeavesNothing σ t = λ d.
      let closed = disconnect-Tidy ds (ds.is_open w) σ.sock σ.world t in
      closed.only d ∙ rw (disconnect_closed k σ.sock σ.world d) (ground arith)

  LeavesNothing-run :
      (r : Run W)
      → Orderly ds (ds.is_open w) r
      → LeavesNothing (elim r [
        | returned σ ↦ close_down k σ
        | reconnecting σ ↦ running_on
        | fault ↦ crashed
        | no_fuel ↦ running_on
      ])
  LeavesNothing-run (returned σ) h = close_down-LeavesNothing σ h
  LeavesNothing-run (reconnecting σ) h = tt
  LeavesNothing-run fault h = tt
  LeavesNothing-run no_fuel h = tt

  LeavesNothing-read :
      (r : Read ClientOptions) (f : ClientOptions → ClientEnd W)
      → ((o : ClientOptions) → LeavesNothing (f o))
      → LeavesNothing
          (elim r [ invalid_argument ↦ terminated | out_of_range ↦ terminated | value o ↦ f o ])
  LeavesNothing-read invalid_argument f h = tt
  LeavesNothing-read out_of_range f h = tt
  LeavesNothing-read (value o) f h = h o

  LeavesNothing-names :
      (names : Option (List (List ℕ))) (shown : Option Visualizer) (r : Run W)
      → Orderly ds (ds.is_open w) r
      → LeavesNothing (elim names [
        | none ↦ terminated
        | some names ↦ elim shown [
          | none ↦ running_on
          | some viz ↦
              if drawn_within viz names
              then elim r [
                | returned σ ↦ close_down k σ
                | reconnecting σ ↦ running_on
                | fault ↦ crashed
                | no_fuel ↦ running_on
              ]
              else crashed
        ]
      ])
  LeavesNothing-names none shown r h = tt
  LeavesNothing-names (some names) none r h = tt
  LeavesNothing-names (some names) (some viz) r h = elim (Bool-cases (drawn_within viz names)) [
    | inl within ↦ rw within (LeavesNothing-run r h)
    | inr without ↦ rw without tt
  ]

  -- Whatever the arguments are and the system calls return, however often the client connects, reads
  -- and loses its connection: when the program returns, the process has open what it had at the start.
  pub main-LeavesNothing :
      (reserve : ℕ → Bool) (clock : ℕ → ℕ) (running : W → Bool) (steps fuel : ℕ)
      (argv : List (List ℕ))
      → LeavesNothing (main k reserve clock running steps fuel argv w)
  unfolding main
  main-LeavesNothing reserve clock running steps fuel argv =
      LeavesNothing-read (parse_args client_settings argv defaults) _ (λ o.
        LeavesNothing-names (make_symbol_names reserve o.num_sym) (dashboard o.no_viz steps) _ (
          main_loop-Orderly ds (ds.is_open w) clock running fuel (retry_of o) o.num_sym
            (start_feed w)
            (record { only = λ e. ground arith; own = λ e h. cc; distinct = λ e h. cc })))

-- With arguments that name a host that cannot be parsed, and a number of symbols for which the names
-- find room and which the cache has if there is a dashboard, and with the flag of the signal handler
-- set at the start: the retry loop ends after ten waits, and the program, whose dashboard has made
-- any number of steps by then, returns 0 with the closing statistics and the CSV file of an empty
-- tracker, its socket closed.
pub main_gives_up :
    {W : Type 0} (k : Kernel W) (reserve : ℕ → Bool) (clock : ℕ → ℕ) (running : W → Bool)
    (steps fuel : ℕ) (argv : List (List ℕ)) (o : ClientOptions) (w : W)
    → parse_args client_settings argv defaults ≡ value o
    → k.parse_address o.host ≡ none
    → reserve o.num_sym ≡ true
    → (o.no_viz ≡ true) ⊎ (o.num_sym ≤ max_symbols)
    → running w ≡ true
    → (end : RetryEnd W) × (connect_with_retry k 11 (retry_of o) (Socket.init, w) ≡ some end)
      × (length end.waits ≡ 10)
      × (main k reserve clock running steps (suc fuel) argv w
          ≡ exited
              (final_statistics Latency.init zero_stats)
              (export_csv Latency.init)
              (disconnect k end.state).1)
unfolding main close_down make_symbol_names
main_gives_up k reserve clock running steps fuel argv o w read bad room known on =
    let (end, ran, waits, ended) =
      main_loop_gives_up k clock running fuel (retry_of o) o.num_sym (start_feed w) bad
        (omega arith) on in
    let (viz, shown, blank) = dashboard_ends o.no_viz steps in
    let fits : (o.no_viz ≡ true) ⊎ (length (names_from o.num_sym 0) ≤ max_symbols) =
      rw (length-names_from o.num_sym 0) known in
    let within = drawn_within_lem viz (names_from o.num_sym 0) o.no_viz blank fits in
    (end, ran, waits, rw (read, room, shown, within, ended, main) refl)
