-- ===== src/Arguments.antt =====
-- The loop of both programs over `argv`: options that take the next argument, and flags.
use market_data_handle.Prelude.{ℕ, ◌≡◌, refl, Option, none, some, List, [], ◌∷◌}
use market_data_handle.Text.{Read, value, and_then}

-- What a program does with one of its arguments: an option, which converts the argument behind it,
-- or a flag, which nothing but the settings of the program sees.
pub record Settings (O : Type 0) : Type 0 where
  pub option : List ℕ → Option (List ℕ → O → Read O)
  pub flag : List ℕ → O → O

module _ {O : Type 0} (settings : Settings O) where
  -- The arguments from number `i` on. `a` stays the same through one round, so of its tests one holds at
  -- most; an option without a next argument is passed over.
  unfoldable pub parse_args : List (List ℕ) → O → Read O
  parse_args [] o = value o
  parse_args (a ∷ []) o = value (settings.flag a o)
  parse_args (a ∷ b ∷ rest) o =
      let passed = parse_args (b ∷ rest) (settings.flag a o) in
      elim (settings.option a) [ none ↦ passed | some set ↦ and_then (set b o) (parse_args rest) ]

  -- An option whose argument can be converted sets its field, and the loop goes on behind both.
  pub parse_args_option :
      (a b : List ℕ) (rest : List (List ℕ)) (o next : O) (set : List ℕ → O → Read O)
      → settings.option a ≡ some set
      → set b o ≡ value next
      → parse_args (a ∷ b ∷ rest) o ≡ parse_args rest next
  unfolding parse_args
  parse_args_option a b rest o next set known read = rw (known, read, parse_args) refl
