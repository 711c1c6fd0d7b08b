-- ===== src/Server/Program/Ends.antt =====
-- How main_server.cpp ends.
use market_data_handle.Prelude.{
  ℕ, zero, suc, ◌≤◌, ◌<◌, ◌^◌, ◌≡◌, ◌≢◌, ◌⊎◌, refl, ap, none, List, length, inl, inr, arith,
  Option-cases,
}
use market_data_handle.Text.{value}
use market_data_handle.Arguments.{parse_args}
use market_data_handle.Server.Exchange.{SendResult, Round}
use market_data_handle.Server.Exchange.Total.{run_all-IsServing}
use market_data_handle.Server.Generator.{Doubles, make_symbols, init, tick_source}
use market_data_handle.Server.Generator.Seals.{DoubleLaws, tick_source_laws}
use market_data_handle.Server.Listener
use market_data_handle.Server.Listener.{
  ServerKernel, ServerDescriptors, start, set_tick_rate, destroy,
}
use market_data_handle.Server.Listener.Release.{Held, start-Ends, destroy_closes}
use market_data_handle.Server.Program.{
  ServerOptions, defaults, server_settings, ServerEnd, exited, serve, main, simulator,
}

module _ {D R : Type 0} (dbl : Doubles D R) where
  length-make_symbols : (n : ℕ) (r : R) → length (make_symbols dbl n r).0 ≡ n
  unfolding make_symbols
  length-make_symbols zero r = refl
  length-make_symbols (suc n) r = ap suc (length-make_symbols n _)

  pub length-init : (n : ℕ) (r : R) → length (init dbl n r).symbols ≡ n
  unfolding init
  length-init n r = length-make_symbols n r

-- Code 0 after a start without an exception, code 1 after one with; the listening socket and the
-- epoll descriptor are closed.
pub record Ended {W N : Type 0} (k : ServerKernel W) (ds : ServerDescriptors k) (o : ServerOptions)
    (w : W) (d : ℕ) (end : ServerEnd W N) : Type 0 where
  pub code : ℕ
  pub after : W
  pub net : N
  pub ends : end ≡ exited code after net
  pub closed : ds.is_open after d ≡ ds.is_open w d
  pub cause :
      let err = (start k (set_tick_rate o.tick_rate (Listener.init o.port), w)).0 in
      ((code ≡ 0) × (err ≡ none)) ⊎ ((code ≡ 1) × (err ≢ none))

module _ {W N D R : Type 0} (k : ServerKernel W) (ds : ServerDescriptors k)
    (send : ℕ → List ℕ → N → SendResult × N) (dbl : Doubles D R) (rounds : ℕ)
    (laws : DoubleLaws dbl rounds) (seeded : R) where
  serve-Ended :
      (o : ServerOptions) (rs : List Round) (w : W) (net : N) (d : ℕ)
      → 0 < o.num_sym
      → o.num_sym ≤ 2 ^ 16
      → Ended k ds o w d
          (serve k (tick_source dbl rounds) send (λ n. init dbl n seeded) o rs (w, net))
  unfolding serve set_tick_rate
  serve-Ended o rs w net d pos few =
      let l = set_tick_rate o.tick_rate (Listener.init o.port) in
      let fresh : Held ds (ds.is_open w) l w = record {
        only = λ e. ground arith;
        own = λ e h. cc;
      } in
      let (held, outcome) = start-Ends ds (ds.is_open w) l w refl refl refl fresh in
      let (x, net', t, ran, kept) =
        run_all-IsServing (tick_source dbl rounds) (λ g. length g.symbols ≡ o.num_sym) send rs
          (simulator (λ n. init dbl n seeded) o) net 0
          (record {
            laws = tick_source_laws dbl rounds laws o.num_sym few;
            ready = length-init dbl o.num_sym seeded;
            some_symbols = pos;
            few_symbols = few;
            number = omega arith;
          }) in
      let gone = destroy k (start k (l, w)).1 in
      let shut = destroy_closes ds (ds.is_open w) _ _ held d in
      elim (Option-cases (start k (l, w)).0) [
        | inl fine ↦ record {
          code = 0;
          after = gone;
          net = net';
          ends = rw (fine, ran, serve) refl;
          closed = shut;
          cause = inl (refl, fine);
        }
        | inr (e, thrown) ↦ record {
          code = 1;
          after = gone;
          net = net;
          ends = rw (thrown, serve) refl;
          closed = shut;
          cause = inr (refl, λ none_there. cc);
        }
      ]

  -- Arguments that can be converted and name from 1 to 65536 symbols, a lawful generator, whatever
  -- the system calls return and the rounds bring: the program neither divides by zero nor leaves the
  -- generator's vector. It exits with code 0 if `start` succeeded and with 1 if it threw, and either
  -- way has closed its listening socket and its epoll descriptor.
  pub main-Ended :
      (argv : List (List ℕ)) (o : ServerOptions) (rs : List Round) (w : W) (net : N) (d : ℕ)
      → parse_args server_settings argv defaults ≡ value o
      → 0 < o.num_sym
      → o.num_sym ≤ 2 ^ 16
      → Ended k ds o w d
          (main k (tick_source dbl rounds) send (λ n. init dbl n seeded) argv rs (w, net))
  unfolding main
  main-Ended argv o rs w net d read pos few = rw (read, main) (serve-Ended o rs w net d pos few)
