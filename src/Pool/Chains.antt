-- ===== src/Pool/Chains.antt =====
-- The free list of the pool as a list of blocks.
use market_data_handle.Prelude.{
  ℕ, ◌<◌, ◌≡◌, ◌≢◌, refl, false, Option, none, some, List, [], ◌∷◌, length, get_or, set, arith,
  member, NoDup, length-set, get_or-set_self, get_or-set_ne,
}
use market_data_handle.Pool.{Pool, push, pop, acquire, release}

-- From the pointer `h` on, the `next` fields lead through just these blocks to null.
abbrev pub Chain : List (Option ℕ) → Option ℕ → List ℕ → Type 0
Chain next h [] = h ≡ none
Chain next h (b ∷ bs) = (h ≡ some b) × (b < length next) × Chain next (get_or next b none) bs

-- The pool holds just these free blocks, the next to be taken in front.
pub record Represents (p : Pool) (free : List ℕ) : Type 0 where
  pub chain : Chain p.next p.free_head free
  pub distinct : NoDup free

Chain-set :
    (next : List (Option ℕ)) (blk : ℕ) (v h : Option ℕ) (bs : List ℕ)
    → member blk bs ≡ false
    → Chain next h bs
    → Chain (set next blk v) h bs
Chain-set next blk v h [] out chain = chain
Chain-set next blk v h (b ∷ bs) out (here, within, rest) =
    let ne : blk ≢ b = λ e. ground arith in
    (
      here,
      omega (arith, length-set next blk v),
      rw (get_or-set_ne next blk b v none ne)
          (Chain-set next blk v (get_or next b none) bs (ground arith) rest),
    )

-- The pool is a stack: `acquire` takes the front block, or fails on an empty pool and changes nothing.
pub acquire-Represents :
    (p : Pool) (b : ℕ) (free : List ℕ)
    → Represents p (b ∷ free)
    → ((acquire p).0 ≡ some b) × Represents (acquire p).1 free
unfolding acquire pop
acquire-Represents p b free r =
    let (here, within, rest) = r.chain in
    rw (here, acquire) (refl, record { chain = rest; distinct = r.distinct.1 })

pub acquire_empty : (p : Pool) → Represents p [] → acquire p ≡ (none, p)
unfolding acquire pop
acquire_empty p r = rw (r.chain, acquire) refl

pub release-Represents :
    (p : Pool) (b : ℕ) (free : List ℕ)
    → b < length p.next
    → member b free ≡ false
    → Represents p free
    → Represents (release (some b) p) (b ∷ free)
unfolding release push
release-Represents p b free within out r = record {
  chain = (
    refl,
    omega (arith, length-set p.next b p.free_head),
    rw (get_or-set_self p.next b p.free_head none within)
        (Chain-set p.next b p.free_head p.free_head free out r.chain),
  );
  distinct = (out, r.distinct);
}
