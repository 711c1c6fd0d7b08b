-- ===== src/Pool/SelfTest/Run.antt =====
-- src/common/memory_pool.cpp: the self-test from its first acquire to its threads.
use market_data_handle.Prelude.{ℕ, ◌≡◌, ◌≤◌, none, some, List, [], ◌∷◌, length, NoDup, arith}
use market_data_handle.Pool.{Pool, init, acquire}
use market_data_handle.Pool.Chains.{Represents}
use market_data_handle.Pool.SelfTest.{acquire_each, exhaust_and_refill, exhaust_and_refill_lem}
use market_data_handle.Pool.SelfTest.Workers.{Crew, Work, memory_of, workers_share}

-- With two blocks in front of the free list.
shared_at_front :
    (free : List ℕ) (p : Pool) (threads rounds : ℕ)
    → 2 ≤ length free
    → Represents p free
    → 3 ≤ threads
    → 2 ≤ rounds
    → (y : ℕ) × (s : Crew) × Work threads rounds (memory_of p) s
      × ((s.workers 1).thread.held ≡ y ∷ [])
      × ((s.workers 2).thread.held ≡ y ∷ [])
shared_at_front [] p threads rounds two r enough long = absurd (omega arith)
shared_at_front (x ∷ []) p threads rounds two r enough long = absurd (omega arith)
shared_at_front (x ∷ y ∷ free) p threads rounds two r enough long =
    let (here, within, (next, fits, rest)) = r.chain in
    let (s, ran, one, two_too) =
      workers_share (memory_of p) x y threads rounds here next enough long in
    (y, s, ran, one, two_too)

-- For a pool of two blocks or more and three threads or more of two rounds or more: every acquire of
-- the first loop gets a block, and no block comes twice; the acquire behind it fails; when the blocks
-- have been released, all of them are free again; and for the threads that are started then there is
-- an interleaving in which two of them hold the same block.
pub self_test_shares :
    (n threads rounds : ℕ)
    → 2 ≤ n
    → 3 ≤ threads
    → 2 ≤ rounds
    → (ptrs : List ℕ) × (full end : Pool) × (free : List ℕ) × (acquire_each n (init n)
        ≡ some (ptrs, full))
      × NoDup ptrs
      × (acquire full ≡ (none, full))
      × (exhaust_and_refill n ≡ some end)
      × Represents end free
      × (length free ≡ n)
      × ((y : ℕ) × (s : Crew) × Work threads rounds (memory_of end) s
          × ((s.workers 1).thread.held ≡ y ∷ [])
          × ((s.workers 2).thread.held ≡ y ∷ []))
self_test_shares n threads rounds two enough long =
    let (ptrs, full, end, free, taken, apart, out, ran, back, count) = exhaust_and_refill_lem n in
    let shared =
      shared_at_front free end threads rounds (omega (arith, count, two)) back enough long in
    (ptrs, full, end, free, taken, apart, out, ran, back, count, shared)
