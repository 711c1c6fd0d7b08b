-- ===== src/Pool/Examples.antt =====
-- The theorems about the pool at concrete runs.
use market_data_handle.Pool.SelfTest.Workers.{Crew, Work, memory_of}
use market_data_handle.Pool.SelfTest.Run.{self_test_shares}
use market_data_handle.Pool.SelfTest.{acquire_each, exhaust_and_refill}
use market_data_handle.Prelude.{
  ◌&&◌, ℕ, zero, suc, ◌≤◌, ◌<◌, ◌≡◌, ◌↔◌, refl, true, false, Option, none, some, List, [], ◌∷◌, All,
  length, member, NoDup, arith,
}
use market_data_handle.Pool.Chains.{Represents}
use market_data_handle.Pool.{
  Pool, recv_pool_size, acquire, init, Use, take_block, give_back, use_all,
}
use market_data_handle.Pool.Owners.{use_all_sound}
use market_data_handle.Pool.Race.{
  Pc, idle, popping, swapping, update, Memory, load_head, read_next, swap, retry, System, pick,
  start_system, Reach,
}
use market_data_handle.Pool.Race.Aba.{double_owner}
use market_data_handle.Pool.Race.Acquire.{Leads, ReachAcquire, start, later, acquirers_apart}

abbrev uses : List Use
uses = take_block ∷ take_block ∷ give_back 0 ∷ take_block ∷ take_block ∷ take_block ∷ []

use_all_run :
    use_all uses (init 3, [])
    ≡ (record { next = none ∷ some 0 ∷ some 1 ∷ []; free_head = none }, 0 ∷ 1 ∷ 2 ∷ [])
unfolding use_all init
use_all_run = refl

use_all_sound_example :
    let (p, held) = use_all uses (init 3, []) in
    NoDup held
    × All (λ b. b < 3) held
    × (length held ≤ 3)
    × (((acquire p).0 ≡ none) ↔ (length held ≡ 3))
use_all_sound_example = use_all_sound uses 3

-- The blocks 2, 1 and 0, as the constructor leaves them.
abbrev memory : Memory
memory = record { next = λ b. elim b [ zero ↦ none | suc k ↦ some k ]; free_head = some 2 }

double_owner_example :
    (s : System) × Reach memory s
    × (member 1 (s.threads 1).held ≡ true)
    × (member 1 (s.threads 2).held ≡ true)
double_owner_example = double_owner memory 2 1 refl refl (omega arith)

-- Two threads meet at the head: thread 0 is overtaken by thread 1, and takes the next block.
abbrev after : System → ℕ → Option ℕ → Pc → List ℕ → System
after s i head pc held = record {
  mem = record { next = s.mem.next; free_head = head };
  threads = update s.threads i (record { pc = pc; held = held });
}

abbrev raced : System
raced =
    let s1 = after (start_system memory) 0 (some 2) (popping 2) [] in
    let s2 = after s1 1 (some 2) (popping 2) [] in
    let s3 = after s2 1 (some 2) (swapping 2 (some 1)) [] in
    let s4 = after s3 0 (some 2) (swapping 2 (some 1)) [] in
    let s5 = after s4 1 (some 1) idle (2 ∷ []) in
    let s6 = after s5 0 (some 1) (popping 1) [] in
    let s7 = after s6 0 (some 1) (swapping 1 (some 0)) [] in after s7 0 (some 0) idle (1 ∷ [])

race : ReachAcquire memory raced
race =
    let a = later start (pick 0 (load_head refl)) tt in
    let b = later a (pick 1 (load_head refl)) tt in
    let c = later b (pick 1 read_next) tt in
    let d = later c (pick 0 read_next) tt in
    let e = later d (pick 1 (swap refl)) tt in
    let f = later e (pick 0 (retry refl)) tt in
    let g = later f (pick 0 read_next) tt in later g (pick 0 (swap refl)) tt

acquirers_apart_example :
    ((rest : List ℕ) × Leads raced.mem.next raced.mem.free_head rest
      × NoDup rest
      × ((member 1 (raced.threads 0).held && member 1 rest) ≡ false))
    × ((member 1 (raced.threads 0).held && member 1 (raced.threads 1).held) ≡ false)
    × NoDup (raced.threads 0).held
acquirers_apart_example =
    acquirers_apart (2 ∷ 1 ∷ 0 ∷ []) 0 1 1 (refl, (refl, (refl, refl))) (refl, (refl, (refl, tt)))
      race (omega arith)

self_test_shares_example :
    (ptrs : List ℕ) × (full end : Pool) × (free : List ℕ) × (acquire_each recv_pool_size
        (init recv_pool_size)
      ≡ some (ptrs, full))
    × NoDup ptrs
    × (acquire full ≡ (none, full))
    × (exhaust_and_refill recv_pool_size ≡ some end)
    × Represents end free
    × (length free ≡ recv_pool_size)
    × ((y : ℕ) × (s : Crew) × Work 4 1000 (memory_of end) s
        × ((s.workers 1).thread.held ≡ y ∷ [])
        × ((s.workers 2).thread.held ≡ y ∷ []))
self_test_shares_example =
    self_test_shares recv_pool_size 4 1000 (omega arith) (omega arith) (omega arith)
