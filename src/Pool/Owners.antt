-- ===== src/Pool/Owners.antt =====
-- The blocks that a user of the pool holds, after any sequence of uses.
use market_data_handle.Prelude.{
  ℕ, zero, suc, ◌+◌, ◌≤◌, ◌<◌, ◌≡◌, ◌↔◌, refl, ap, ◌∙◌, false, ◌||◌, Option, none, some, List, [],
  ◌∷◌, ◌++◌, ◌==◌, length, get_elem?, replicate, arith, member, NoDup, member-append, length-set,
  length-replicate, All, Option-cases, inl, inr,
}
use market_data_handle.Pool.{
  Pool, push, pop, acquire, release, push_all, init, Use, take_block, give_back, remove_at,
  use_once, use_all,
}
use market_data_handle.Pool.Chains.{
  Represents, acquire-Represents, acquire_empty, release-Represents,
}

-- What the constructor stacks up over some free blocks: `i`, then `i + 1`, and so on.
abbrev stack_up : ℕ → ℕ → List ℕ → List ℕ
stack_up zero i free = free
stack_up (suc n) i free = stack_up n (suc i) (i ∷ free)

length-stack_up : (n i : ℕ) (free : List ℕ) → length (stack_up n i free) ≡ n + length free
length-stack_up zero i free = omega arith
length-stack_up (suc n) i free = omega (arith, length-stack_up n (suc i) (i ∷ free))

fresh_block : (i : ℕ) (free : List ℕ) → All (λ b. b < i) free → member i free ≡ false
fresh_block i [] below = refl
fresh_block i (b ∷ free) (lt, below) = ground (arith, fresh_block i free below)

All-below_mono : (i j : ℕ) (bs : List ℕ) → i ≤ j → All (λ b. b < i) bs → All (λ b. b < j) bs
All-below_mono i j [] le h = tt
All-below_mono i j (b ∷ bs) le (lt, h) = (omega arith, All-below_mono i j bs le h)

push_all-Represents :
    (n i : ℕ) (p : Pool) (free : List ℕ)
    → All (λ b. b < i) free
    → i + n ≤ length p.next
    → Represents p free
    → Represents (push_all n i p) (stack_up n i free)
      × (length (push_all n i p).next ≡ length p.next)
unfolding push_all push
push_all-Represents zero i p free below room r = (r, refl)
push_all-Represents (suc n) i p free below room r =
    let q : Pool = push i p in
    let wide : length q.next ≡ length p.next = length-set p.next i p.free_head in
    let one : Represents q (i ∷ free) =
      unfold release in release-Represents p i free (omega arith) (fresh_block i free below) r in
    let (all, same) =
      push_all-Represents n (suc i) q (i ∷ free)
        (omega arith, All-below_mono i (suc i) free (omega arith) below) (omega (arith, wide))
        one in
    (all, same ∙ wide)

module _ (b : ℕ) (ys : List ℕ) where
  NoDup-take : (xs : List ℕ) → NoDup (xs ++ (b ∷ ys)) → NoDup (b ∷ (xs ++ ys))
  NoDup-take [] nd = nd
  NoDup-take (x ∷ xs) (fresh, nd) =
      let (out, rest) = NoDup-take xs nd in
      (
        ground (arith, member-append x xs (b ∷ ys)),
        (ground (arith, member-append x xs (b ∷ ys), member-append x xs ys), rest),
      )

  pub NoDup-give : (xs : List ℕ) → NoDup (b ∷ (xs ++ ys)) → NoDup (xs ++ (b ∷ ys))
  NoDup-give [] nd = nd
  NoDup-give (x ∷ xs) (out, (fresh, nd)) = (
    ground (arith, member-append x xs (b ∷ ys), member-append x xs ys),
    NoDup-give xs (ground arith, nd),
  )

  -- Taking one entry out of a list leaves the others.
  NoDup-remove_at :
      (k : ℕ) (xs : List ℕ)
      → get_elem? xs k ≡ some b
      → NoDup (xs ++ ys)
      → NoDup (b ∷ (remove_at k xs ++ ys))
        × (length (remove_at k xs) + 1 ≡ length xs)
        × (((c : ℕ) → member c xs ≡ (c == b || member c (remove_at k xs))))
  NoDup-remove_at k [] at nd = absurd (ground arith)
  NoDup-remove_at zero (x ∷ xs) at (fresh, nd) =
      let same : x ≡ b = ground arith in ((ground arith, nd), omega arith, λ c. ground arith)
  NoDup-remove_at (suc k) (x ∷ xs) at (fresh, nd) =
      let ((out, rest), len, mem) = NoDup-remove_at k xs at nd in
      let left : ℕ → Type 0 = λ c. member c xs ≡ (c == b || member c (remove_at k xs)) in
      let here : left x = mem x in
      let there : left b = mem b in
      (
        (
          ground (
            arith,
            here,
            there,
            member-append x xs ys,
            member-append x (remove_at k xs) ys,
            member-append b (remove_at k xs) ys,
          ),
          (
            ground (
              arith,
              here,
              there,
              member-append x xs ys,
              member-append x (remove_at k xs) ys,
              member-append b (remove_at k xs) ys,
            ),
            rest,
          ),
        ),
        omega (arith, len),
        λ c. ground (arith, mem c),
      )

All-remove_at :
    (n k b : ℕ) (xs : List ℕ)
    → get_elem? xs k ≡ some b
    → All (λ x. x < n) xs
    → (b < n) × All (λ x. x < n) (remove_at k xs)
All-remove_at n k b [] at h = absurd (ground arith)
All-remove_at n zero b (x ∷ xs) at (lt, h) = (ground arith, h)
All-remove_at n (suc k) b (x ∷ xs) at (lt, h) =
    let (found, rest) = All-remove_at n k b xs at h in (found, (lt, rest))

-- Every block is held or free, and none twice.
pub record Owned (n : ℕ) (s : Pool × List ℕ) : Type 0 where
  pub free : List ℕ
  pub represents : Represents s.0 free
  pub apart : NoDup (s.1 ++ free)
  pub counted : length s.1 + length free ≡ n
  pub size : length s.0.next ≡ n
  pub within : All (λ b. b < n) s.1

pub init-Owned : (n : ℕ) → Owned n (init n, [])
unfolding init
init-Owned n =
    let none_free : Pool = record { next = replicate n none; free_head = none } in
    let wide = length-replicate {A = Option ℕ} n none in
    let (all, same) =
      push_all-Represents n 0 none_free [] tt (omega (arith, wide))
        (record { chain = refl; distinct = tt }) in
    record {
      free = stack_up n 0 [];
      represents = all;
      apart = all.distinct;
      counted = omega (arith, length-stack_up n 0 []);
      size = same ∙ wide;
      within = tt;
    }

pub acquire_within : (p : Pool) → length (acquire p).1.next ≡ length p.next
unfolding acquire pop
acquire_within p = ground arith

take_block-Owned :
    (n : ℕ) (p : Pool) (held free : List ℕ)
    → Represents p free
    → NoDup (held ++ free)
    → length held + length free ≡ n
    → length p.next ≡ n
    → All (λ b. b < n) held
    → Owned n (use_once take_block (p, held))
unfolding use_once
take_block-Owned n p held [] r apart counted size within =
    let none_left : (acquire p).0 ≡ none = ap (λ (a : Option ℕ × Pool). a.0) (acquire_empty p r) in
    let same : (acquire p).1 ≡ p = ap (λ (a : Option ℕ × Pool). a.1) (acquire_empty p r) in
    rw (none_left, same, use_once)
      (record {
        free = [];
        represents = r;
        apart = apart;
        counted = counted;
        size = size;
        within = within;
      })
take_block-Owned n p held (b ∷ free) r apart counted size within =
    let (got, left) = acquire-Represents p b free r in
    let (_, room, _) = r.chain in
    rw (got, use_once)
      (record {
        free = free;
        represents = left;
        apart = NoDup-take b free held apart;
        counted = omega (arith, counted);
        size = acquire_within p ∙ size;
        within = (omega arith, within);
      })

give_back-Owned : (n k : ℕ) (s : Pool × List ℕ) → Owned n s → Owned n (use_once (give_back k) s)
unfolding use_once
give_back-Owned n k (p, held) o = elim (Option-cases (get_elem? held k)) [
  | inl e ↦ rw (e, use_once) o
  | inr (b, e) ↦
      let ((out, rest), len, mem) = NoDup-remove_at b o.free k held e o.apart in
      let (room, below) = All-remove_at n k b held e o.within in
      let loose : member b o.free ≡ false =
        ground (arith, member-append b (remove_at k held) o.free) in
      rw (e, use_once)
        (record {
          free = b ∷ o.free;
          represents = release-Represents p b o.free (omega (arith, o.size)) loose o.represents;
          apart = NoDup-give b o.free (remove_at k held) (out, rest);
          counted = omega (arith, len, o.counted);
          size = unfold release push in length-set p.next b p.free_head ∙ o.size;
          within = below;
        })
]

use_all-Owned : (us : List Use) (n : ℕ) (s : Pool × List ℕ) → Owned n s → Owned n (use_all us s)
unfolding use_all
use_all-Owned [] n s o = o
use_all-Owned (take_block ∷ us) n (p, held) o =
    use_all-Owned us n _
      (take_block-Owned n p held o.free o.represents o.apart o.counted o.size o.within)
use_all-Owned (give_back k ∷ us) n s o = use_all-Owned us n _ (give_back-Owned n k s o)

NoDup-front : (xs ys : List ℕ) → NoDup (xs ++ ys) → NoDup xs
NoDup-front [] ys nd = tt
NoDup-front (x ∷ xs) ys (fresh, nd) = (ground (arith, member-append x xs ys), NoDup-front xs ys nd)

acquire_fails :
    (p : Pool) (held : List ℕ) (n : ℕ) (free : List ℕ)
    → Represents p free
    → length held + length free ≡ n
    → ((acquire p).0 ≡ none) ↔ (length held ≡ n)
acquire_fails p held n [] r counted =
    (λ h. omega arith, λ h. ap (λ (a : Option ℕ × Pool). a.0) (acquire_empty p r))
acquire_fails p held n (b ∷ free) r counted =
    let got = (acquire-Represents p b free r).0 in (λ h. ground arith, λ h. absurd (omega arith))

-- Whatever one thread acquires and releases, in whatever order, from a pool that the constructor
-- made: it never holds a block twice nor a block beyond the pool, and `acquire` fails exactly when
-- it holds as many blocks as the pool has.
pub use_all_sound :
    (us : List Use) (n : ℕ)
    → let (p, held) = use_all us (init n, []) in
      NoDup held
      × All (λ b. b < n) held
      × (length held ≤ n)
      × (((acquire p).0 ≡ none) ↔ (length held ≡ n))
use_all_sound us n =
    let o = use_all-Owned us n (init n, []) (init-Owned n) in
    let s : Pool × List ℕ = use_all us (init n, []) in
    (
      NoDup-front s.1 o.free o.apart,
      o.within,
      omega (arith, o.counted),
      acquire_fails s.0 s.1 n o.free o.represents o.counted,
    )
