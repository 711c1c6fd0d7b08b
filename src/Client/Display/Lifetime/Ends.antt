-- ===== src/Client/Display/Lifetime/Ends.antt =====
-- What the calls of `start` and `stop` and the steps of the loop lead to.
use mathlib.Core.Path.{subst}
use mathlib.Core.Option.{some-injective}
use market_data_handle.Prelude.{
  ℕ, zero, suc, ◌+◌, ◌≡◌, ◌≤◌, refl, Bool, true, false, Option, none, some, inl, inr, ◌⊎◌, arith,
  ◌≢◌, ◌∙◌,
}
use market_data_handle.Client.Display.Lifetime.{
  Place, testing, rendering, sleeping, ended, Visualizer, start, store_stop, join, loop_step,
  loop_steps, Owner, outside, joining, Move, starts, stops, joins, loops, Reach, made, later,
}

-- Outside the calls, either there is no thread and the flag is down, or there is one that is not
-- through and the flag is up; in the join the flag is down.
abbrev Alive : Option Place → Bool → Type 0
Alive none running = running ≡ false
Alive (some testing) running = running ≡ true
Alive (some rendering) running = running ≡ true
Alive (some sleeping) running = running ≡ true
Alive (some ended) running = ⊥

abbrev IsInStep : Owner → Visualizer → Type 0
IsInStep outside v = Alive v.thread v.running
IsInStep joining v = v.running ≡ false

loop_step-Alive :
    (running : Bool) (thread : Option Place) (frames : ℕ)
    → Alive thread running
    → let v = loop_step (record { running = running; thread = thread; frames = frames }) in
      Alive v.thread v.running
unfolding loop_step
loop_step-Alive running none frames up = up
loop_step-Alive running (some testing) frames up = rw up refl
loop_step-Alive running (some rendering) frames up = up
loop_step-Alive running (some sleeping) frames up = up
loop_step-Alive running (some ended) frames up = up

loop_step-running :
    (running : Bool) (thread : Option Place) (frames : ℕ)
    → (loop_step (record { running = running; thread = thread; frames = frames })).running ≡ running
unfolding loop_step
loop_step-running running none frames = refl
loop_step-running running (some testing) frames = refl
loop_step-running running (some rendering) frames = refl
loop_step-running running (some sleeping) frames = refl
loop_step-running running (some ended) frames = refl

start-Alive :
    (running : Bool) (thread : Option Place) (frames : ℕ) (w : Visualizer)
    → start (record { running = running; thread = thread; frames = frames }) ≡ some w
    → Alive w.thread w.running
unfolding start
start-Alive running none frames w e =
    subst (λ u. Alive u.thread u.running) (some-injective _ _ e) refl
start-Alive running (some place) frames w e = absurd cc

join-Alive :
    (running : Bool) (thread : Option Place) (frames : ℕ) (w : Visualizer)
    → running ≡ false
    → join (record { running = running; thread = thread; frames = frames }) ≡ some w
    → Alive w.thread w.running
unfolding join
join-Alive running none frames w down e =
    subst (λ u. Alive u.thread u.running) (some-injective _ _ e) down
join-Alive running (some testing) frames w down e = absurd cc
join-Alive running (some rendering) frames w down e = absurd cc
join-Alive running (some sleeping) frames w down e = absurd cc
join-Alive running (some ended) frames w down e =
    subst (λ u. Alive u.thread u.running) (some-injective _ _ e) down

Move-IsInStep : {o p : Owner} {v w : Visualizer} → IsInStep o v → Move o v p w → IsInStep p w
unfolding store_stop
Move-IsInStep {v = v} {w = w} good (starts e) = start-Alive v.running v.thread v.frames w e
Move-IsInStep good stops = refl
Move-IsInStep {v = v} {w = w} good (joins e) = join-Alive v.running v.thread v.frames w good e
Move-IsInStep {o = outside} {v = v} good loops = loop_step-Alive v.running v.thread v.frames good
Move-IsInStep {o = joining} {v = v} good loops =
    loop_step-running v.running v.thread v.frames ∙ good

Reach-IsInStep : {o : Owner} {v : Visualizer} → Reach o v → IsInStep o v
Reach-IsInStep made = refl
Reach-IsInStep (later r m) = Move-IsInStep (Reach-IsInStep r) m

pub loop_steps_idle :
    (n : ℕ) (running : Bool) (frames : ℕ)
    → loop_steps n (record { running = running; thread = none; frames = frames })
      ≡ record { running = running; thread = none; frames = frames }
unfolding loop_steps loop_step
loop_steps_idle zero running frames = refl
loop_steps_idle (suc n) running frames = loop_steps_idle n running frames

-- The `stop` that waits in `v` comes back; then nothing is drawn, and `start` is in order.
abbrev pub Returns : Visualizer → Type 0
Returns v =
    (w : Visualizer) × (join (loop_steps 3 v) ≡ some w)
    × (w.frames ≤ v.frames + 1)
    × ((n : ℕ) → loop_steps n w ≡ w)
    × (start w ≡ some (record w { running = true; thread = some testing }))

joining-Returns :
    (running : Bool) (thread : Option Place) (frames : ℕ)
    → running ≡ false
    → Returns (record { running = running; thread = thread; frames = frames })
unfolding join loop_steps loop_step start
joining-Returns true thread frames down = absurd cc
joining-Returns false none frames down =
    (_, refl, omega arith, λ n. loop_steps_idle n false frames, refl)
joining-Returns false (some testing) frames down =
    (_, refl, omega arith, λ n. loop_steps_idle n false frames, refl)
joining-Returns false (some rendering) frames down =
    (_, refl, omega arith, λ n. loop_steps_idle n false (frames + 1), refl)
joining-Returns false (some sleeping) frames down =
    (_, refl, omega arith, λ n. loop_steps_idle n false frames, refl)
joining-Returns false (some ended) frames down =
    (_, refl, omega arith, λ n. loop_steps_idle n false frames, refl)

-- What to expect of the visualizer outside the calls: nothing, or a frame.
abbrev Draws : Visualizer → Type 0
Draws v =
    ((start v ≢ none) × ((n : ℕ) → loop_steps n v ≡ v))
    ⊎ ((start v ≡ none) × ((loop_steps 3 v).frames ≡ v.frames + 1))

outside-Draws :
    (running : Bool) (thread : Option Place) (frames : ℕ)
    → Alive thread running
    → Draws (record { running = running; thread = thread; frames = frames })
unfolding loop_steps loop_step start
outside-Draws running none frames down = inl (λ bad. cc, λ n. loop_steps_idle n running frames)
outside-Draws true (some testing) frames up = inr (refl, refl)
outside-Draws true (some rendering) frames up = inr (refl, refl)
outside-Draws true (some sleeping) frames up = inr (refl, refl)
outside-Draws false (some testing) frames up = absurd cc
outside-Draws false (some rendering) frames up = absurd cc
outside-Draws false (some sleeping) frames up = absurd cc
outside-Draws running (some ended) frames up = absurd up

abbrev pub Behaves : Owner → Visualizer → Type 0
Behaves outside v = Draws v
Behaves joining v = Returns v

-- Whatever calls of `start` and `stop` were made and however the two threads were interleaved: a
-- `stop` that waits gets through after three steps of the loop at most, in which one frame at most is
-- drawn; then no frame is drawn any more and `start` makes a new thread. Outside the calls either
-- `start` is in order and nothing is drawn, or a further `start` ends the program and three steps of
-- the loop draw just one frame.
pub Reach-Behaves : (o : Owner) (v : Visualizer) → Reach o v → Behaves o v
Reach-Behaves outside v r = outside-Draws v.running v.thread v.frames (Reach-IsInStep r)
Reach-Behaves joining v r = joining-Returns v.running v.thread v.frames (Reach-IsInStep r)
