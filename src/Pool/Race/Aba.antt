-- ===== src/Pool/Race/Aba.antt =====
-- The compare-exchange of `pop` sees only that the head is the same block again.
use market_data_handle.Prelude.{ℕ, ◌≡◌, ◌≢◌, refl, true, some, List, [], ◌∷◌, member, arith}
use market_data_handle.Pool.Race.{
  Memory, load_head, read_next, swap, begin_release, link, publish, System, pick, Reach, start,
  later,
}

member_front : (x : ℕ) (xs : List ℕ) → member x (x ∷ xs) ≡ true
member_front x xs = ground arith

-- Whatever the pool, as long as it has two free blocks: thread 0 reads the first block and its
-- successor, thread 1 takes both and releases the first, thread 0 goes on and leaves the second at
-- the head, and thread 2 takes it. Threads 1 and 2 then hold the same block.
pub double_owner :
    (m : Memory) (x y : ℕ)
    → m.free_head ≡ some x
    → m.next x ≡ some y
    → x ≢ y
    → (s : System) × Reach m s
      × (member y (s.threads 1).held ≡ true)
      × (member y (s.threads 2).held ≡ true)
double_owner m x y first second ne =
    let a0 = later start (pick 0 (load_head first)) in
    let a1 = later a0 (pick 0 read_next) in
    let b0 = later a1 (pick 1 (load_head first)) in
    let b1 = later b0 (pick 1 read_next) in
    let b2 = later b1 (pick 1 (swap first)) in
    let b3 = later b2 (pick 1 (load_head second)) in
    let b4 = later b3 (pick 1 read_next) in
    let b5 = later b4 (pick 1 (swap second)) in
    let b6 = later b5 (pick 1 (begin_release 1 refl)) in
    let b7 = later b6 (pick 1 link) in
    let b8 = later b7 (pick 1 (publish (ground arith))) in
    let a2 = later b8 (pick 0 (swap refl)) in
    let c0 = later a2 (pick 2 (load_head second)) in
    let c1 = later c0 (pick 2 read_next) in
    let c2 = later c1 (pick 2 (swap second)) in (_, c2, member_front y [], member_front y [])
