-- ===== src/Cache/Seqlock/Progress.antt =====
-- The reader while nobody writes.
use market_data_handle.Prelude.{ℕ, zero, suc, ◌+◌, ◌-◌, ◌%◌, ◌^◌, ◌≤◌, ◌<◌, ◌≡◌, ◌≢◌, refl, arith}
use mathlib.Core.Path.{subst}
use native.Mathlib.Decide.{ℕ_discrete}
use market_data_handle.Cache.{MarketData}
use market_data_handle.Cache.Seqlock.{
  Shared, idle, Pc, loading, copying, testing, returned, Locals, copy_field, ReaderMove, load_even,
  load_odd, copy, reload, again, leave, System, write, read, Reach, start, later,
}
use market_data_handle.Cache.Seqlock.Invariant.{WriterOk, Reach-Inv}

-- With `m` as it is, the reader returns after at most `n` of its own moves, whichever it takes, and
-- is never stuck before.
pub data Returns (m : Shared) : ℕ → Locals → Pc → Type 0 where
  done : {n : ℕ} {r : Locals} → Returns m n r returned
  move :
      {n : ℕ} {r : Locals} {p : Pc} (s : Locals) (q : Pc)
      → ReaderMove m r p s q
      → ((t : Locals) (u : Pc) → ReaderMove m r p t u → Returns m n t u)
      → Returns m (suc n) r p

Returns-mono :
    {m : Shared} {n : ℕ} {r : Locals} {p : Pc} (k : ℕ) → n ≤ k → Returns m n r p → Returns m k r p
Returns-mono k le done = done
Returns-mono zero le (move s q mv rest) = absurd (omega arith)
Returns-mono (suc k) le (move s q mv rest) =
    move s q mv (λ t u other. Returns-mono k (omega arith) (rest t u other))

-- No more than the eight fields are copied.
abbrev CopiesOk : Pc → Type 0
CopiesOk (copying k) = k ≤ 8
CopiesOk loading = Unit
CopiesOk testing = Unit
CopiesOk returned = Unit

ReaderMove-copying : {m : Shared} {r t : Locals} {p u : Pc} → ReaderMove m r p t u → CopiesOk u
ReaderMove-copying (load_even e) = omega arith
ReaderMove-copying (load_odd e) = tt
ReaderMove-copying (copy lt) = omega arith
ReaderMove-copying (reload e) = tt
ReaderMove-copying (again ne) = tt
ReaderMove-copying (leave e) = tt

abbrev copies : ℕ → ℕ → ℕ
copies zero n = suc n
copies (suc j) n = suc (copies j n)

copies_lem : (j n : ℕ) → copies j n ≡ j + n + 1
copies_lem zero n = omega arith
copies_lem (suc j) n = omega (arith, copies_lem j n)

-- The only move at each place.
module _ (m : Shared) (n : ℕ) (r : Locals) where
  only_leave : r.v1 ≡ r.v2 → {t : Locals} {u : Pc} → ReaderMove m r testing t u → Returns m n t u
  only_leave same (again ne) = absurd (ne same)
  only_leave same (leave e) = done

  only_again :
      r.v1 ≢ r.v2
      → Returns m n r loading
      → {t : Locals} {u : Pc} → ReaderMove m r testing t u
      → Returns m n t u
  only_again ne next (again other) = next
  only_again ne next (leave e) = absurd (ne e)

  only_load :
      m.mem.version % 2 ≡ 0
      → Returns m n (record r { v1 = m.mem.version }) (copying 0)
      → {t : Locals} {u : Pc} → ReaderMove m r loading t u
      → Returns m n t u
  only_load even next (load_even e) = next
  only_load even next (load_odd e) = absurd (omega arith)

  only_copy :
      (k : ℕ)
      → k < 8
      → Returns m n (record r { snap = copy_field k m.mem.fields r.snap }) (copying (suc k))
      → {t : Locals} {u : Pc} → ReaderMove m r (copying k) t u
      → Returns m n t u
  only_copy k lt next (copy less) = next
  only_copy k lt next (reload e) = absurd (omega arith)

  only_reload :
      (k : ℕ)
      → k ≡ 8
      → Returns m n (record r { v2 = m.mem.version }) testing
      → {t : Locals} {u : Pc} → ReaderMove m r (copying k) t u
      → Returns m n t u
  only_reload k last next (copy less) = absurd (omega arith)
  only_reload k last next (reload e) = next

module _ (m : Shared) where
  agreed-Returns : (n : ℕ) (r : Locals) → r.v1 ≡ r.v2 → Returns m (suc n) r testing
  agreed-Returns n r same = move r returned (leave same) (λ t u. only_leave m n r same)

  -- From the copy of field `k` on, with `j` fields left, `rest` is what the test takes.
  copying-Returns :
      (n j k : ℕ) (r : Locals)
      → k + j ≡ 8
      → ((snap : MarketData)
          → Returns m n (record { v1 = r.v1; v2 = m.mem.version; snap = snap }) testing)
      → Returns m (copies j n) r (copying k)
  copying-Returns n zero k r left rest =
      let last : k ≡ 8 = omega arith in
      move _ _ (reload last) (λ t u. only_reload m n r k last (rest r.snap))
  copying-Returns n (suc j) k r left rest =
      let lt : k < 8 = omega arith in
      move _ _ (copy lt) (λ t u. only_copy m (copies j n) r k lt (
        copying-Returns n j (suc k) (record r { snap = copy_field k m.mem.fields r.snap })
          (omega arith) rest))

  loading-Returns : (r : Locals) → m.mem.version % 2 ≡ 0 → Returns m 11 r loading
  loading-Returns r even = move _ _ (load_even even) (λ t u. only_load m 10 r even (
      copying-Returns 1 8 0 (record r { v1 = m.mem.version }) refl
        (λ snap. agreed-Returns 0 _ refl)))

  testing-Returns : (r : Locals) → m.mem.version % 2 ≡ 0 → Returns m 12 r testing
  testing-Returns r even = elim (ℕ_discrete r.v1 r.v2) [
    | yes same ↦ agreed-Returns 11 r same
    | no ne ↦ move _ _ (again ne) (λ t u. only_again m 11 r ne (loading-Returns r even))
  ]

  any-Returns : (r : Locals) (p : Pc) → CopiesOk p → m.mem.version % 2 ≡ 0 → Returns m 21 r p
  any-Returns r loading ok even = Returns-mono 21 (omega arith) (loading-Returns r even)
  any-Returns r (copying k) ok even =
      Returns-mono 21 (omega (arith, copies_lem (8 - k) 12))
        (copying-Returns 12 (8 - k) k r (omega arith) (λ snap. testing-Returns _ even))
  any-Returns r testing ok even = Returns-mono 21 (omega arith) (testing-Returns r even)
  any-Returns r returned ok even = done

Reach-copying : {s : System} → Reach s → CopiesOk s.pc
Reach-copying start = tt
Reach-copying (later reach (write mv)) = Reach-copying reach
Reach-copying (later reach (read mv)) = ReaderMove-copying mv

-- In every reachable state of the sequence lock in which the writer is outside an update, with fewer
-- than 2^32 increments of the version: as long as the writer stays there, `get_snapshot` is never
-- stuck, and whichever moves it makes, it returns after at most 21 of them.
pub idle-Returns :
    (s : System)
    → Reach s
    → s.shared.ticks < 2 ^ 32
    → s.writer ≡ idle
    → Returns s.shared 21 s.locals s.pc
idle-Returns s reach lt quiet =
    let inv = Reach-Inv reach lt in
    let (even, last) = subst (WriterOk s.shared) quiet inv.writer_ok in
    any-Returns s.shared s.locals s.pc (Reach-copying reach) (omega (arith, inv.counted))
