-- ===== src/Client/Display/Lifetime.antt =====
-- src/client/visualizer.cpp: `start`, `stop`, the destructor and the thread that runs `loop`. The
-- thread that owns the visualizer and the thread of the loop move in any interleaving; what a frame
-- shows is in Screen, here the frames are counted.
pub mod Ends
use mathlib.Core.Path.{subst}
use mathlib.Core.Option.{some-injective}
use market_data_handle.Prelude.{
  ℕ, zero, suc, ◌+◌, ◌≡◌, ◌≤◌, refl, Bool, true, false, Option, none, some, if◌then◌else◌, inl, inr,
  ◌⊎◌, arith, ◌≢◌, ◌∙◌,
}

-- What the thread of `loop` is about to do.
pub data Place : Type 0 where
  testing : Place
  rendering : Place
  sleeping : Place
  ended : Place

pub record Visualizer : Type 0 where
  pub running : Bool
  pub thread : Option Place  -- `none` when it is not joinable
  pub frames : ℕ  -- calls of `render` that are through

abbrev pub init : Visualizer
init = record { running = false; thread = none; frames = 0 }

-- `none`: the assignment to a joinable `std::thread` ends the program.
unfoldable pub start : Visualizer → Option Visualizer
start v = elim v.thread [
  | none ↦ some (record v { running = true; thread = some testing })
  | some place ↦ none
]

-- The store of `stop`, before its join.
unfoldable pub store_stop : Visualizer → Visualizer
store_stop v = record v { running = false }

-- The join of `stop`: `none` while it blocks.
unfoldable pub join : Visualizer → Option Visualizer
join v = elim v.thread [
  | none ↦ some v
  | some testing ↦ none
  | some rendering ↦ none
  | some sleeping ↦ none
  | some ended ↦ some (record v { thread = none })
]

-- One step of `loop`.
unfoldable pub loop_step : Visualizer → Visualizer
loop_step v = elim v.thread [
  | none ↦ v
  | some testing ↦ record v { thread = some (if v.running then rendering else ended) }
  | some rendering ↦ record v { thread = some sleeping; frames = v.frames + 1 }
  | some sleeping ↦ record v { thread = some testing }
  | some ended ↦ v
]

unfoldable pub loop_steps : ℕ → Visualizer → Visualizer
unfolding loop_step
loop_steps zero v = v
loop_steps (suc n) v = loop_steps n (loop_step v)

-- Where the owner of the visualizer is: between the calls, or in the join of `stop`.
pub data Owner : Type 0 where
  outside : Owner
  joining : Owner

pub data Move : Owner → Visualizer → Owner → Visualizer → Type 0 where
  starts : {v w : Visualizer} → start v ≡ some w → Move outside v outside w
  stops : {v : Visualizer} → Move outside v joining (store_stop v)
  joins : {v w : Visualizer} → join v ≡ some w → Move joining v outside w
  loops : {o : Owner} {v : Visualizer} → Move o v o (loop_step v)

pub data Reach : Owner → Visualizer → Type 0 where
  made : Reach outside init
  later : {o p : Owner} {v w : Visualizer} → Reach o v → Move o v p w → Reach p w
