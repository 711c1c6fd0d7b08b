-- ===== src/Pool/SelfTest.antt =====
-- src/common/memory_pool.cpp: `memory_pool_self_test` up to its threads, with its assertions on.
pub mod Workers
pub mod Run
use mathlib.Core.Path.{subst}
use market_data_handle.Prelude.{
  ℕ, zero, suc, ◌+◌, ◌≡◌, ◌<◌, refl, sym, ap, ◌∙◌, false, Option, none, some, List, [], ◌∷◌, ◌++◌,
  length, length-set, All, NoDup, member, member-append, append-nil, arith,
}
use market_data_handle.Pool.{Pool, init, acquire, release}
use market_data_handle.Pool.Chains.{
  Chain, Represents, acquire-Represents, acquire_empty, release-Represents,
}
use market_data_handle.Pool.Owners.{NoDup-give, init-Owned, acquire_within}

-- The first loop, with `n` rounds left: the pointers in their order. `none` where the assertion
-- fails.
unfoldable pub acquire_each : ℕ → Pool → Option (List ℕ × Pool)
acquire_each zero p = some ([], p)
acquire_each (suc n) p =
    let (got, p') = acquire p in
    elim got [
      | none ↦ none
      | some blk ↦ elim (acquire_each n p') [ none ↦ none | some (ptrs, q) ↦ some (blk ∷ ptrs, q) ]
    ]

unfoldable pub release_each : List ℕ → Pool → Pool
release_each [] p = p
release_each (blk ∷ ptrs) p = release_each ptrs (release (some blk) p)

-- For a pool of `n` blocks, 256 in the source: the pool that the threads are started on.
unfoldable pub exhaust_and_refill : ℕ → Option Pool
unfolding acquire_each release_each
exhaust_and_refill n = elim (acquire_each n (init n)) [
  | none ↦ none
  | some (ptrs, p) ↦ some (release_each ptrs (acquire p).1)
]

acquire_each-Represents :
    (free : List ℕ) (p : Pool)
    → Represents p free
    → (q : Pool) × (acquire_each (length free) p ≡ some (free, q))
      × Represents q []
      × (length q.next ≡ length p.next)
unfolding acquire_each
acquire_each-Represents [] p r = (p, refl, r, refl)
acquire_each-Represents (b ∷ free) p r =
    let (got, left) = acquire-Represents p b free r in
    let (q, rest, empty, same) = acquire_each-Represents free (acquire p).1 left in
    let kept = acquire_within p in (q, rw (got, rest, acquire_each) refl, empty, same ∙ kept)

Chain-within :
    (next : List (Option ℕ)) (h : Option ℕ) (bs : List ℕ)
    → Chain next h bs
    → All (λ b. b < length next) bs
Chain-within next h [] c = tt
Chain-within next h (b ∷ bs) (here, within, rest) = (within, Chain-within next _ bs rest)

release_each-Represents :
    (ptrs free : List ℕ) (p : Pool)
    → Represents p free
    → NoDup (ptrs ++ free)
    → (n : ℕ) → length p.next ≡ n
    → All (λ b. b < n) ptrs
    → (all : List ℕ) × Represents (release_each ptrs p) all
      × (length all ≡ length ptrs + length free)
unfolding release_each
release_each-Represents [] free p r nd n size within = (free, r, omega arith)
release_each-Represents (b ∷ ptrs) free p r (out, nd) n size (lt, within) =
    let loose : member b free ≡ false = ground (arith, out, member-append b ptrs free) in
    let put = release-Represents p b free (omega (arith, size, lt)) loose r in
    let same : length (release (some b) p).next ≡ n =
      unfold release in length-set p.next b p.free_head ∙ size in
    let (all, left, count) =
      release_each-Represents ptrs (b ∷ free) (release (some b) p) put
        (NoDup-give b free ptrs (out, nd)) n same within in
    (all, left, omega (arith, count))

-- In the part of the self-test before its threads, for a pool of any size: every acquire of the first
-- loop gets a block, and no block comes twice; the acquire behind it fails; and when the blocks have
-- been released, all of them are free again.
pub exhaust_and_refill_lem :
    (n : ℕ)
    → (ptrs : List ℕ) × (full end : Pool) × (free : List ℕ) × (acquire_each n (init n)
        ≡ some (ptrs, full))
      × NoDup ptrs
      × (acquire full ≡ (none, full))
      × (exhaust_and_refill n ≡ some end)
      × Represents end free
      × (length free ≡ n)
unfolding exhaust_and_refill
exhaust_and_refill_lem n =
    let o = init-Owned n in
    let (full, taken, empty, same) = acquire_each-Represents o.free (init n) o.represents in
    let all_taken : acquire_each n (init n) ≡ some (o.free, full) =
      let all_there : n ≡ length o.free = omega (arith, o.counted) in
      ap (λ k. acquire_each k (init n)) all_there ∙ taken in
    let none_left = acquire_empty full empty in
    let apart : NoDup (o.free ++ []) = subst NoDup (sym (append-nil o.free)) o.apart in
    let within =
      subst (λ m. All (λ b. b < m) o.free) o.size
        (Chain-within (init n).next _ o.free o.represents.chain) in
    let (free, back, count) =
      release_each-Represents o.free [] full empty apart n (same ∙ o.size) within in
    (
      o.free,
      full,
      release_each o.free full,
      free,
      all_taken,
      o.apart,
      none_left,
      rw (all_taken, none_left, exhaust_and_refill) refl,
      back,
      omega (arith, count, o.counted),
    )
