-- ===== src/Pool/Race/Acquire.antt =====
-- Threads that only acquire, interleaved in any order.
use native.Mathlib.Decide.{ℕ_discrete}
use mathlib.Core.Path.{subst}
use market_data_handle.Prelude.{
  Bool, ◌&&◌, ℕ, ◌≡◌, ◌≢◌, refl, sym, true, false, Option, none, some, List, [], ◌∷◌, member, NoDup,
  Bool-cases, arith,
}
use market_data_handle.Pool.Race.{
  Pc, idle, popping, swapping, Thread, Memory, update, Move, load_head, load_null, read_next, swap,
  retry, give_up, begin_release, link, publish, relink, System, Step, pick, start_system,
}

-- The moves of `acquire`.
abbrev pub IsAcquire :
    {m : Memory} {held : List ℕ} {p : Pc} {n : Memory} {t : Thread} → Move m held p n t → Type 0
IsAcquire (load_head e) = Unit
IsAcquire (load_null e) = Unit
IsAcquire read_next = Unit
IsAcquire (swap e) = Unit
IsAcquire (retry e) = Unit
IsAcquire (give_up e) = Unit
IsAcquire (begin_release k e) = ⊥
IsAcquire link = ⊥
IsAcquire (publish e) = ⊥
IsAcquire relink = ⊥

abbrev pub IsAcquireStep : {s t : System} → Step s t → Type 0
IsAcquireStep (pick i move) = IsAcquire move

pub data ReachAcquire (m : Memory) : System → Type 0 where
  start : ReachAcquire m (start_system m)
  later :
      {s t : System} → ReachAcquire m s → (step : Step s t) → IsAcquireStep step → ReachAcquire m t

-- From the pointer `h` on, the `next` fields lead through just these blocks to null.
abbrev pub Leads : (ℕ → Option ℕ) → Option ℕ → List ℕ → Type 0
Leads next h [] = h ≡ none
Leads next h (b ∷ bs) = (h ≡ some b) × Leads next (next b) bs

-- What holds of the new entry and of the old ones holds of the updated function.
update_all :
    {A : Type 0} (P : ℕ → A → Type 0) (f : ℕ → A) (i : ℕ) (v : A) (j : ℕ)
    → P i v
    → P j (f j)
    → P j (update f i v j)
update_all P f i v j new old = elim (ℕ_discrete i j) [
  | yes e ↦
      let here : update f i v i ≡ v = ground arith in
      subst (λ k. P k (update f i v k)) e (subst (P i) (sym here) new)
  | no ne ↦ let there : update f i v j ≡ f j = ground arith in subst (P j) (sym there) old
]

exclusive : (x y : Bool) → (x ≡ true → y ≡ false) → (x && y) ≡ false
exclusive true y h = h refl
exclusive false y h = refl

record Shared (m : Memory) (ts : ℕ → Thread) : Type 0 where
  free : List ℕ
  leads : Leads m.next m.free_head free
  distinct : NoDup free
  taken : (i b : ℕ) → member b (ts i).held ≡ true → member b free ≡ false
  apart : (i j b : ℕ) → i ≢ j → member b (ts i).held ≡ true → member b (ts j).held ≡ false
  once : (i : ℕ) → NoDup (ts i).held
  successor : (i h : ℕ) (n : Option ℕ) → (ts i).pc ≡ swapping h n → n ≡ m.next h

-- A move that takes no block.
Shared-update :
    (m : Memory) (ts : ℕ → Thread) (i : ℕ) (p : Pc)
    → ((h : ℕ) (n : Option ℕ) → p ≡ swapping h n → n ≡ m.next h)
    → Shared m ts
    → Shared m (update ts i (record { pc = p; held = (ts i).held }))
Shared-update m ts i p succ s =
    let t : Thread = record { pc = p; held = (ts i).held } in
    let same : (j : ℕ) → (update ts i t j).held ≡ (ts j).held =
      λ j. update_all (λ k u. u.held ≡ (ts k).held) ts i t j refl refl in
    record {
      free = s.free;
      leads = s.leads;
      distinct = s.distinct;
      taken = λ j b. rw (same j) (s.taken j b);
      apart = λ j k b. rw (same j, same k) (s.apart j k b);
      once = λ j. rw (same j) (s.once j);
      successor = λ j h n.
          update_all (λ k u. u.pc ≡ swapping h n → n ≡ m.next h) ts i t j (succ h n)
            (s.successor j h n);
    }

module _ (m : Memory) (ts : ℕ → Thread) (i h b : ℕ) (bs : List ℕ) (first : b ≡ h)
    (distinct : NoDup (b ∷ bs))
    (taken : (j c : ℕ) → member c (ts j).held ≡ true → member c (b ∷ bs) ≡ false)
    (apart : (j k c : ℕ) → j ≢ k → member c (ts j).held ≡ true → member c (ts k).held ≡ false)
    (once : (j : ℕ) → NoDup (ts j).held) where
  abbrev taker : Thread
  taker = record { pc = idle; held = h ∷ (ts i).held }

  swap_taken : (j c : ℕ) → member c (update ts i taker j).held ≡ true → member c bs ≡ false
  swap_taken j c =
      update_all (λ k u. member c u.held ≡ true → member c bs ≡ false) ts i taker j
        (λ e. ground (arith, distinct, taken i c)) (λ e. ground (arith, taken j c))

  swap_once : (j : ℕ) → NoDup (update ts i taker j).held
  swap_once j =
      update_all (λ k u. NoDup u.held) ts i taker j
        (ground (arith, taken i h, once i, Bool-cases (member h (ts i).held))) (once j)

  swap_apart :
      (j k c : ℕ)
      → j ≢ k
      → member c (update ts i taker j).held ≡ true
      → member c (update ts i taker k).held ≡ false
  swap_apart j k c ne =
      update_all
        (λ q u. j ≢ q → member c (update ts i taker j).held ≡ true → member c u.held ≡ false) ts i
        taker k
        (λ d.
          update_all (λ q u. q ≢ i → member c u.held ≡ true → member c taker.held ≡ false) ts i
            taker j (λ w. absurd (w refl)) (λ w e. ground (arith, taken j c, apart j i c)) d)
        (λ d.
          update_all (λ q u. q ≢ k → member c u.held ≡ true → member c (ts k).held ≡ false) ts i
            taker j
            (λ w e. ground (arith, taken k c, apart i k c, Bool-cases (member c (ts k).held)))
            (λ w. apart j k c w) d)
        ne

Shared-taken :
    (m : Memory) (ts : ℕ → Thread) (i h : ℕ) (n : Option ℕ) (free : List ℕ)
    → m.free_head ≡ some h
    → n ≡ m.next h
    → Leads m.next m.free_head free
    → NoDup free
    → ((j c : ℕ) → member c (ts j).held ≡ true → member c free ≡ false)
    → ((j k c : ℕ) → j ≢ k → member c (ts j).held ≡ true → member c (ts k).held ≡ false)
    → ((j : ℕ) → NoDup (ts j).held)
    → ((j g : ℕ) (o : Option ℕ) → (ts j).pc ≡ swapping g o → o ≡ m.next g)
    → Shared
        (record m { free_head = n })
        (update ts i (record { pc = idle; held = h ∷ (ts i).held }))
Shared-taken m ts i h n [] first succ leads distinct taken apart once successor =
    absurd (ground (arith, first, leads))
Shared-taken m ts i h n (b ∷ bs) first succ leads distinct taken apart once successor =
    let same : b ≡ h = ground (arith, leads) in
    record {
      free = bs;
      leads = rw (succ, ← same) leads.1;
      distinct = distinct.1;
      taken = swap_taken m ts i h b bs same distinct taken apart once;
      apart = swap_apart m ts i h b bs same distinct taken apart once;
      once = swap_once m ts i h b bs same distinct taken apart once;
      successor = λ j g o.
          update_all (λ q u. u.pc ≡ swapping g o → o ≡ m.next g) ts i
            (record { pc = idle; held = h ∷ (ts i).held }) j (λ e. absurd (cc e)) (successor j g o);
    }

-- The exchange that takes block `h` from the head.
Shared-swap :
    (m : Memory) (ts : ℕ → Thread) (i h : ℕ) (n : Option ℕ)
    → m.free_head ≡ some h
    → n ≡ m.next h
    → Shared m ts
    → Shared
        (record m { free_head = n })
        (update ts i (record { pc = idle; held = h ∷ (ts i).held }))
Shared-swap m ts i h n first succ s =
    Shared-taken m ts i h n s.free first succ s.leads s.distinct s.taken s.apart s.once s.successor

Move-Shared :
    {m n : Memory} {held : List ℕ} {p : Pc} {t : Thread} (ts : ℕ → Thread) (i : ℕ)
    (move : Move m held p n t)
    → IsAcquire move
    → p ≡ (ts i).pc
    → held ≡ (ts i).held
    → Shared m ts
    → Shared n (update ts i t)
Move-Shared {m = m} ts i (load_head {h} first) acq at keeps s =
    rw keeps (Shared-update m ts i (popping h) (λ g o e. absurd (cc e)) s)
Move-Shared {m = m} ts i (load_null first) acq at keeps s =
    rw keeps (Shared-update m ts i idle (λ g o e. absurd (cc e)) s)
Move-Shared {m = m} ts i (read_next {h}) acq at keeps s =
    rw keeps (Shared-update m ts i (swapping h (m.next h)) (λ g o e. cc e) s)
Move-Shared {m = m} ts i (swap {h} {n} first) acq at keeps s =
    rw keeps (Shared-swap m ts i h n first (s.successor i h n (sym at)) s)
Move-Shared {m = m} ts i (retry {g = g} first) acq at keeps s =
    rw keeps (Shared-update m ts i (popping g) (λ h o e. absurd (cc e)) s)
Move-Shared {m = m} ts i (give_up first) acq at keeps s =
    rw keeps (Shared-update m ts i idle (λ g o e. absurd (cc e)) s)
Move-Shared ts i (begin_release k taken) acq at keeps s = absurd acq
Move-Shared ts i link acq at keeps s = absurd acq
Move-Shared ts i (publish empty) acq at keeps s = absurd acq
Move-Shared ts i relink acq at keeps s = absurd acq

Step-Shared :
    {s t : System} (step : Step s t)
    → IsAcquireStep step
    → Shared s.mem s.threads
    → Shared t.mem t.threads
Step-Shared {s = s} (pick i move) acq shared = Move-Shared s.threads i move acq refl refl shared

ReachAcquire-Shared :
    {m : Memory} {s : System} (free : List ℕ)
    → Leads m.next m.free_head free
    → NoDup free
    → ReachAcquire m s
    → Shared s.mem s.threads
ReachAcquire-Shared free leads distinct start = record {
  free = free;
  leads = leads;
  distinct = distinct;
  taken = λ i b e. cc;
  apart = λ i j b ne e. cc e;
  once = λ i. tt;
  successor = λ i h n e. absurd (cc e);
}
ReachAcquire-Shared free leads distinct (later before step acq) =
    Step-Shared step acq (ReachAcquire-Shared free leads distinct before)

-- Threads that only acquire, in any number and interleaved in any order, from a free list without
-- repetition that ends in null: what is left of the list is such a list again, and of two threads
-- no block is held by both, none twice by one, and none held by one is in what is left.
pub acquirers_apart :
    {m : Memory} {s : System} (free : List ℕ) (i j b : ℕ)
    → Leads m.next m.free_head free
    → NoDup free
    → ReachAcquire m s
    → i ≢ j
    → ((rest : List ℕ) × Leads s.mem.next s.mem.free_head rest
        × NoDup rest
        × ((member b (s.threads i).held && member b rest) ≡ false))
      × ((member b (s.threads i).held && member b (s.threads j).held) ≡ false)
      × NoDup (s.threads i).held
acquirers_apart {s = s} free i j b leads distinct reached ne =
    let shared = ReachAcquire-Shared free leads distinct reached in
    (
      (
        shared.free,
        shared.leads,
        shared.distinct,
        exclusive (member b (s.threads i).held) (member b shared.free) (shared.taken i b),
      ),
      exclusive (member b (s.threads i).held) (member b (s.threads j).held) (shared.apart i j b ne),
      shared.once i,
    )
