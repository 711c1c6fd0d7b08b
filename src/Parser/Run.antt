-- ===== src/Parser/Run.antt =====
-- The parser's loop: it ends by its own test, and it runs on from where a shorter input stopped.
use market_data_handle.Prelude.{
  ℕ, zero, suc, ◌≤◌, ◌≡◌, refl, sym, ap, ◌∙◌, none, some, List, [], ◌∷◌, ◌++◌, length, arith,
  append_assoc, Option-cases, inl, inr,
}
use market_data_handle.Parser.{Stats, Handlers, Call, Outcome, prepend, step, run}
use market_data_handle.Parser.Step.{step_shrinks, step-append}

-- The loop over all the bytes there are.
unfoldable pub scan : Handlers → Stats → List ℕ → Outcome
scan h s bs = run h (length bs) s bs

module _ (h : Handlers) where
  pub run_stop :
      (fuel : ℕ) (s : Stats) (bs : List ℕ)
      → step h s bs ≡ none
      → run h fuel s bs ≡ record { stats = s; rest = bs; calls = [] }
  unfolding run
  run_stop zero s bs e = refl
  run_stop (suc fuel) s bs e = rw (e, run)

  run_next :
      (fuel : ℕ) (s s' : Stats) (bs bs' : List ℕ) (cs : List Call)
      → step h s bs ≡ some (s', bs', cs)
      → run h (suc fuel) s bs ≡ prepend cs (run h fuel s' bs')
  unfolding run
  run_next fuel s s' bs bs' cs e = rw (e, run)

  pub step_nil : (s : Stats) → step h s [] ≡ none
  unfolding step
  step_nil s = refl

  -- As many rounds as there are bytes are enough: more rounds change nothing.
  pub run_fuel :
      (f g : ℕ) (s : Stats) (bs : List ℕ)
      → length bs ≤ f
      → length bs ≤ g
      → run h f s bs ≡ run h g s bs
  run_fuel f g s [] p q = run_stop f s [] (step_nil s) ∙ sym (run_stop g s [] (step_nil s))
  run_fuel zero g s (b ∷ bs) p q = absurd (omega arith)
  run_fuel (suc f) zero s (b ∷ bs) p q = absurd (omega arith)
  run_fuel (suc f) (suc g) s (b ∷ bs) p q = elim (Option-cases (step h s (b ∷ bs))) [
    | inl e ↦ run_stop (suc f) s (b ∷ bs) e ∙ sym (run_stop (suc g) s (b ∷ bs) e)
    | inr ((s', bs', cs), e) ↦
        let less = step_shrinks h s s' (b ∷ bs) bs' cs e in
        rw (run_next f s s' (b ∷ bs) bs' cs e, run_next g s s' (b ∷ bs) bs' cs e)
          (ap (prepend cs) (run_fuel f g s' bs' (omega arith) (omega arith)))
  ]

  pub scan_next :
      (s s' : Stats) (bs bs' : List ℕ) (cs : List Call)
      → step h s bs ≡ some (s', bs', cs)
      → scan h s bs ≡ prepend cs (scan h s' bs')
  unfolding scan
  scan_next s s' [] bs' cs e = absurd (omega (arith, step_shrinks h s s' [] bs' cs e))
  scan_next s s' (b ∷ bs) bs' cs e =
      run_next (length bs) s s' (b ∷ bs) bs' cs e
      ∙ ap (prepend cs) (
          run_fuel (length bs) (length bs') s' bs'
            (omega (arith, step_shrinks h s s' (b ∷ bs) bs' cs e)) (omega arith))

  pub scan_stop :
      (s : Stats) (bs : List ℕ)
      → step h s bs ≡ none
      → scan h s bs ≡ record { stats = s; rest = bs; calls = [] }
  unfolding scan
  scan_stop s bs e = run_stop (length bs) s bs e

  scan-append_fuel :
      (f : ℕ) (s : Stats) (xs ys : List ℕ)
      → length xs ≤ f
      → scan h s (xs ++ ys)
        ≡ prepend (run h f s xs).calls (scan h (run h f s xs).stats ((run h f s xs).rest ++ ys))
  scan-append_fuel f s [] ys p = rw (run_stop f s [] (step_nil s))
  scan-append_fuel zero s (x ∷ xs) ys p = absurd (omega arith)
  scan-append_fuel (suc f) s (x ∷ xs) ys p = elim (Option-cases (step h s (x ∷ xs))) [
    | inl e ↦ rw (run_stop (suc f) s (x ∷ xs) e)
    | inr ((s', xs', cs), e) ↦
        let less = step_shrinks h s s' (x ∷ xs) xs' cs e in
        scan_next s s' (x ∷ xs ++ ys) (xs' ++ ys) cs (step-append h s s' (x ∷ xs) ys xs' cs e)
        ∙ rw (
          run_next f s s' (x ∷ xs) xs' cs e,
          scan-append_fuel f s' xs' ys (omega arith),
          append_assoc,
        )
  ]

  -- The loop over a longer input first does what it does on the front of it, then goes on from
  -- the bytes that were left.
  pub scan-append :
      (s : Stats) (xs ys : List ℕ)
      → scan h s (xs ++ ys)
        ≡ prepend (scan h s xs).calls (scan h (scan h s xs).stats ((scan h s xs).rest ++ ys))
  unfolding scan
  scan-append s xs ys = scan-append_fuel (length xs) s xs ys (omega arith)

  ends :
      (f : ℕ) (s : Stats) (bs : List ℕ)
      → length bs ≤ f
      → step h (run h f s bs).stats (run h f s bs).rest ≡ none
  ends f s [] p = rw (run_stop f s [] (step_nil s)) (step_nil s)
  ends zero s (b ∷ bs) p = absurd (omega arith)
  ends (suc f) s (b ∷ bs) p = elim (Option-cases (step h s (b ∷ bs))) [
    | inl e ↦ rw (run_stop (suc f) s (b ∷ bs) e) e
    | inr ((s', bs', cs), e) ↦
        let less = step_shrinks h s s' (b ∷ bs) bs' cs e in
        rw (run_next f s s' (b ∷ bs) bs' cs e) (ends f s' bs' (omega arith))
  ]

  -- The loop ends by its own test or `break`, never because the rounds ran out.
  pub scan_ends : (s : Stats) (bs : List ℕ) → step h (scan h s bs).stats (scan h s bs).rest ≡ none
  unfolding scan
  scan_ends s bs = ends (length bs) s bs (omega arith)
