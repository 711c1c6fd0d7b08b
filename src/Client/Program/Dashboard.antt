-- ===== src/Client/Program/Dashboard.antt =====
-- The dashboard's thread within `main`.
use market_data_handle.Prelude.{
  ℕ, zero, suc, ◌<◌, ◌==◌, leb, Option, none, Bool-cases, ◌≡◌, ◌≤◌, ◌⊎◌, refl, inl, inr, Bool, true,
  false, some, List, length, arith,
}
use market_data_handle.Cache.{SymbolCache, max_symbols}
use market_data_handle.Cache.Updates.{IsReady}
use market_data_handle.Client.Display.{collect}
use market_data_handle.Client.Display.Ranking.{collect_lem, collect_out}
use market_data_handle.Client.Display.Lifetime.{
  Visualizer, testing, init, start, store_stop, join, loop_step, loop_steps, Owner, joining, Reach,
  made, later, starts, stops, loops,
}
use market_data_handle.Client.Display.Lifetime.Ends.{Reach-Behaves, loop_steps_idle}
use market_data_handle.Client.Program.{dashboard, drawn_within}

loop_steps-Reach : (n : ℕ) {o : Owner} (v : Visualizer) → Reach o v → Reach o (loop_steps n v)
unfolding loop_steps
loop_steps-Reach zero v r = r
loop_steps-Reach (suc n) v r = loop_steps-Reach n (loop_step v) (later r loops)

-- `stop` gets through, and without a thread nothing has been drawn.
pub dashboard_ends :
    (no_viz : Bool) (steps : ℕ)
    → (viz : Visualizer) × (dashboard no_viz steps ≡ some viz) × ((no_viz ≡ true) → viz.frames ≡ 0)
unfolding dashboard start store_stop join loop_steps loop_step
dashboard_ends true steps = rw (loop_steps_idle steps false 0) (init, refl, λ e. refl)
dashboard_ends false steps =
    let viz : Visualizer = record init { running = true; thread = some testing } in
    let waits : Reach joining (store_stop (loop_steps steps viz)) =
      later (loop_steps-Reach steps viz (later made (starts refl))) stops in
    let (after, joined, few, quiet, again) =
      Reach-Behaves joining (store_stop (loop_steps steps viz)) waits in
    (after, joined, λ bad. cc)

-- With the flag or with no more names than the cache has symbols.
pub drawn_within_lem :
    (viz : Visualizer) (names : List (List ℕ)) (no_viz : Bool)
    → (no_viz ≡ true → viz.frames ≡ 0)
    → (no_viz ≡ true) ⊎ (length names ≤ max_symbols)
    → drawn_within viz names ≡ true
unfolding drawn_within
drawn_within_lem viz names no_viz blank (inl off) = rw (blank off) refl
drawn_within_lem viz names no_viz blank (inr fits) = ground (arith, fits)

abbrev comes_through : {A : Type 0} → Option A → Bool
comes_through none = false
comes_through (some a) = true

-- `drawn_within` is whether the first loop of a frame stays in the array of a cache at rest.
drawn_within-collect :
    (viz : Visualizer) (names : List (List ℕ)) (rounds : ℕ) (cache : SymbolCache)
    → 0 < viz.frames
    → IsReady cache
    → drawn_within viz names ≡ comes_through (collect (suc rounds) cache (length names) 0)
unfolding drawn_within
drawn_within-collect viz names rounds cache some_frame ready =
    let drawn : (viz.frames == 0) ≡ false = ground arith in
    elim (Bool-cases (leb (length names) max_symbols)) [
      | inl fits ↦
          let read = collect_lem rounds cache (length names) 0 ready (ground (arith, fits)) in
          rw (drawn, fits, read) refl
      | inr over ↦
          let lost =
            collect_out (suc rounds) (length names) 0 cache ready.0 (omega arith)
              (ground (arith, over)) in
          rw (drawn, over, lost) refl
    ]
