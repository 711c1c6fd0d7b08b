-- ===== src/Pool/Race.antt =====
-- include/memory_pool.h: any number of threads in `acquire` and `release`, one access of shared
-- memory at a time (sequentially consistent). `head->next` is read before the compare-exchange of
-- `pop`, and `blk->next` is written before that of `push`; a weak exchange may fail for no reason.
pub mod Aba
pub mod Acquire
use market_data_handle.Prelude.{
  ℕ, ◌≡◌, Option, none, some, List, [], ◌∷◌, ◌==◌, if◌then◌else◌, get_elem?,
}
use market_data_handle.Pool.{remove_at}

abbrev pub update : {A : Type 0} → (ℕ → A) → ℕ → A → ℕ → A
update f k v j = if k == j then v else f j

-- The `next` fields and the head of the free list.
pub record Memory : Type 0 where
  pub next : ℕ → Option ℕ
  pub free_head : Option ℕ

-- Where a thread stands: outside; in `pop` with `head` loaded, and with `head->next` read too; in
-- `push` with the head loaded, and with `blk->next` written.
pub data Pc : Type 0 where
  idle : Pc
  popping : ℕ → Pc
  swapping : ℕ → Option ℕ → Pc
  linking : ℕ → Option ℕ → Pc
  pushing : ℕ → Pc

-- `held` are the blocks that the thread acquired and did not release.
pub record Thread : Type 0 where
  pub pc : Pc
  pub held : List ℕ

abbrev thread : Pc → List ℕ → Thread
thread pc held = record { pc = pc; held = held }

pub data Move (m : Memory) (held : List ℕ) : Pc → Memory → Thread → Type 0 where
  load_head : {h : ℕ} → m.free_head ≡ some h → Move m held idle m (thread (popping h) held)
  load_null : m.free_head ≡ none → Move m held idle m (thread idle held)
  read_next : {h : ℕ} → Move m held (popping h) m (thread (swapping h (m.next h)) held)
  swap :
      {h : ℕ} {n : Option ℕ}
      → m.free_head ≡ some h
      → Move m held (swapping h n) (record m { free_head = n }) (thread idle (h ∷ held))
  retry :
      {h g : ℕ} {n : Option ℕ}
      → m.free_head ≡ some g
      → Move m held (swapping h n) m (thread (popping g) held)
  give_up :
      {h : ℕ} {n : Option ℕ} → m.free_head ≡ none → Move m held (swapping h n) m (thread idle held)
  begin_release :
      (k : ℕ) {b : ℕ}
      → get_elem? held k ≡ some b
      → Move m held idle m (thread (linking b m.free_head) (remove_at k held))
  link :
      {b : ℕ} {e : Option ℕ}
      → Move m held (linking b e) (record m { next = update m.next b e }) (thread (pushing b) held)
  publish :
      {b : ℕ}
      → m.free_head ≡ m.next b
      → Move m held (pushing b) (record m { free_head = some b }) (thread idle held)
  relink :
      {b : ℕ}
      → Move m held
          (pushing b)
          (record m { next = update m.next b m.free_head })
          (thread (pushing b) held)

pub record System : Type 0 where
  pub mem : Memory
  pub threads : ℕ → Thread

pub data Step (s : System) : System → Type 0 where
  pick :
      (i : ℕ) {m : Memory} {t : Thread}
      → Move s.mem (s.threads i).held (s.threads i).pc m t
      → Step s (record { mem = m; threads = update s.threads i t })

-- No thread has begun.
abbrev pub start_system : Memory → System
start_system m = record { mem = m; threads = λ i. thread idle [] }

pub data Reach (m : Memory) : System → Type 0 where
  start : Reach m (start_system m)
  later : {s t : System} → Reach m s → Step s t → Reach m t
