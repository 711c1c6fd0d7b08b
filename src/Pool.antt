-- ===== src/Pool.antt =====
-- include/memory_pool.h: a fixed pool of blocks on a linked free list.
-- A block is its index in `storage_`; a pointer is an index or null, `none`. Here every operation
-- runs alone, so that each compare-exchange succeeds at once; Pool/Race interleaves them.
pub mod Chains
pub mod Owners
pub mod SelfTest
pub mod Race
mod Examples
use market_data_handle.Prelude.{
  ℕ, zero, suc, Option, none, some, List, [], ◌∷◌, get_elem?, get_or, set, replicate,
}

-- The `next` field of each block, and `free_head_`.
pub record Pool : Type 0 where
  pub next : List (Option ℕ)
  pub free_head : Option ℕ

unfoldable pub push : ℕ → Pool → Pool
push blk p = record { next = set p.next blk p.free_head; free_head = some blk }

unfoldable pub pop : Pool → Option ℕ × Pool
pop p = elim p.free_head [
  | none ↦ (none, p)
  | some head ↦ (some head, record p { free_head = get_or p.next head none })
]

unfoldable pub acquire : Pool → Option ℕ × Pool
unfolding pop
acquire p = pop p

-- `data` is the first field of a block, so the block has the address that `acquire` returned.
unfoldable pub release : Option ℕ → Pool → Pool
unfolding push
release none p = p
release (some blk) p = push blk p

-- The loop of the constructor from block `i` on, with `n` blocks left.
unfoldable pub push_all : ℕ → ℕ → Pool → Pool
unfolding push
push_all zero i p = p
push_all (suc n) i p = push_all n (suc i) (push i p)

unfoldable pub init : ℕ → Pool
unfolding push_all
init pool_size = push_all pool_size 0 (record { next = replicate pool_size none; free_head = none })

abbrev pub capacity : ℕ → ℕ
capacity pool_size = pool_size

-- `RecvBufferPool` has 256 blocks.
abbrev pub recv_pool_size : ℕ
recv_pool_size = 256

-- A use of the pool by one thread: `take_block` keeps what `acquire` returns, `give_back k` releases
-- block number `k` of those that it holds.
pub data Use : Type 0 where
  take_block : Use
  give_back : ℕ → Use

abbrev pub remove_at : ℕ → List ℕ → List ℕ
remove_at k [] = []
remove_at zero (x ∷ xs) = xs
remove_at (suc k) (x ∷ xs) = x ∷ remove_at k xs

unfoldable pub use_once : Use → Pool × List ℕ → Pool × List ℕ
unfolding acquire release
use_once take_block (p, held) =
    let (got, p') = acquire p in elim got [ none ↦ (p', held) | some blk ↦ (p', blk ∷ held) ]
use_once (give_back k) (p, held) = elim (get_elem? held k) [
  | none ↦ (p, held)
  | some blk ↦ (release (some blk) p, remove_at k held)
]

unfoldable pub use_all : List Use → Pool × List ℕ → Pool × List ℕ
unfolding use_once
use_all [] s = s
use_all (u ∷ us) s = use_all us (use_once u s)
