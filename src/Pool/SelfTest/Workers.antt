-- ===== src/Pool/SelfTest/Workers.antt =====
-- src/common/memory_pool.cpp: the threads of `memory_pool_self_test`, in any interleaving of the
-- accesses of Pool/Race.
use market_data_handle.Prelude.{
  ℕ, ◌-◌, ◌≡◌, ◌≤◌, ◌<◌, refl, Bool, true, false, some, none, Option, [], ◌∷◌, arith, if◌then◌else◌,
  ltb, lt→ltb, get_or,
}
use market_data_handle.Pool.{Pool}
use market_data_handle.Pool.Race.{
  Memory, Pc, idle, popping, swapping, linking, pushing, Thread, Move, update, load_head, read_next,
  swap, link, publish,
}

-- Within `acquire` or `release`.
abbrev pub is_busy : Pc → Bool
is_busy idle = false
is_busy (popping h) = true
is_busy (swapping h n) = true
is_busy (linking b e) = true
is_busy (pushing b) = true

-- `rounds` are the rounds of the loop that have not begun.
pub record Worker : Type 0 where
  pub rounds : ℕ
  pub thread : Thread

-- What a worker does next: it begins a round with an `acquire`, goes on within `acquire` or
-- `release`, or begins to release the block that its `acquire` returned.
pub data Turn (m : Memory) (w : Worker) : Memory → Worker → Type 0 where
  begins :
      {m' : Memory} {t : Thread}
      → 0 < w.rounds
      → w.thread.pc ≡ idle
      → w.thread.held ≡ []
      → Move m [] idle m' t
      → Turn m w m' (record { rounds = w.rounds - 1; thread = t })
  goes_on :
      {m' : Memory} {t : Thread}
      → is_busy w.thread.pc ≡ true
      → Move m w.thread.held w.thread.pc m' t
      → Turn m w m' (record { rounds = w.rounds; thread = t })
  frees :
      {b : ℕ}
      → w.thread.pc ≡ idle
      → w.thread.held ≡ b ∷ []
      → Turn m w m
          (record { rounds = w.rounds; thread = record { pc = linking b m.free_head; held = [] } })

pub record Crew : Type 0 where
  pub mem : Memory
  pub workers : ℕ → Worker

-- The first `threads` workers have all their rounds before them, and there are no others.
abbrev pub hired : ℕ → ℕ → Memory → Crew
hired threads rounds m = record {
  mem = m;
  workers = λ i. record {
    rounds = if ltb i threads then rounds else 0;
    thread = record { pc = idle; held = [] };
  };
}

pub data Work (threads rounds : ℕ) (m : Memory) : Crew → Type 0 where
  start : Work threads rounds m (hired threads rounds m)
  later :
      {s : Crew} (i : ℕ) {m' : Memory} {w : Worker}
      → Work threads rounds m s
      → Turn s.mem (s.workers i) m' w
      → Work threads rounds m (record { mem = m'; workers = update s.workers i w })

abbrev pub memory_of : Pool → Memory
memory_of p = record { next = λ b. get_or p.next b none; free_head = p.free_head }

update_self : (f : ℕ → Option ℕ) (k : ℕ) (v : Option ℕ) → v ≡ update f k v k
update_self f k v = ground arith

rounds_left :
    (i threads rounds : ℕ)
    → i < threads
    → 2 ≤ rounds
    → (0 < (if ltb i threads then rounds else 0)) × (0 < (if ltb i threads then rounds else 0) - 1)
rounds_left i threads rounds lt long = rw (lt→ltb i threads lt) (omega arith, omega arith)

-- Thread 0 reads the first block and its successor, thread 1 acquires the first and thread 2 the
-- second, thread 1 releases the first, and thread 0 goes on: the second is at the head again.
pub workers_share :
    (m : Memory) (x y threads rounds : ℕ)
    → m.free_head ≡ some x
    → m.next x ≡ some y
    → 3 ≤ threads
    → 2 ≤ rounds
    → (s : Crew) × Work threads rounds m s
      × ((s.workers 1).thread.held ≡ y ∷ [])
      × ((s.workers 2).thread.held ≡ y ∷ [])
workers_share m x y threads rounds first second enough long =
    let left0 = rounds_left 0 threads rounds (omega arith) long in
    let left1 = rounds_left 1 threads rounds (omega arith) long in
    let left2 = rounds_left 2 threads rounds (omega arith) long in
    let a0 = later 0 start (begins left0.0 refl refl (load_head first)) in
    let a1 = later 0 a0 (goes_on refl read_next) in
    let b0 = later 1 a1 (begins left1.0 refl refl (load_head first)) in
    let b1 = later 1 b0 (goes_on refl read_next) in
    let b2 = later 1 b1 (goes_on refl (swap first)) in
    let c0 = later 2 b2 (begins left2.0 refl refl (load_head second)) in
    let c1 = later 2 c0 (goes_on refl read_next) in
    let c2 = later 2 c1 (goes_on refl (swap second)) in
    let b3 = later 1 c2 (frees refl refl) in
    let b4 = later 1 b3 (goes_on refl link) in
    let b5 = later 1 b4 (goes_on refl (publish (update_self m.next x (m.next y)))) in
    let a2 = later 0 b5 (goes_on refl (swap refl)) in
    let d0 = later 1 a2 (begins left1.1 refl refl (load_head second)) in
    let d1 = later 1 d0 (goes_on refl read_next) in
    let d2 = later 1 d1 (goes_on refl (swap second)) in (_, d2, refl, refl)
