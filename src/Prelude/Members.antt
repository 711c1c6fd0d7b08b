-- ===== src/Prelude/Members.antt =====
-- Lists of numbers as sets: membership as a test, removal, and lists without repetition.
use Prim.Native.Nat.{ℕ}
use mathlib.Core.Path.{◌≡◌, refl}
use mathlib.Core.Logic.{inl, inr}
use mathlib.Core.Bool.{Bool, false, ◌||◌}
use mathlib.Core.List.{List, [], ◌∷◌, ◌++◌}
use native.Mathlib.Omega.{arith}
use market_data_handle.Prelude.Tests.{◌==◌, if◌then◌else◌, Bool-cases}

abbrev pub member : ℕ → List ℕ → Bool
member x [] = false
member x (y ∷ ys) = x == y || member x ys

-- `insert` and `erase` of a set.
abbrev pub insert : ℕ → List ℕ → List ℕ
insert x ys = if member x ys then ys else x ∷ ys

abbrev pub erase : ℕ → List ℕ → List ℕ
erase x [] = []
erase x (y ∷ ys) = let rest = erase x ys in if x == y then rest else y ∷ rest

abbrev pub NoDup : List ℕ → Type 0
NoDup [] = Unit
NoDup (x ∷ xs) = (member x xs ≡ false) × NoDup xs

pub member-append : (x : ℕ) (xs ys : List ℕ) → member x (xs ++ ys) ≡ (member x xs || member x ys)
member-append x [] ys = refl
member-append x (y ∷ xs) ys = ground (arith, member-append x xs ys)

pub member-erase :
    (x y : ℕ) (xs : List ℕ) → member y (erase x xs) ≡ (if x == y then false else member y xs)
member-erase x y [] = ground arith
member-erase x y (z ∷ xs) = ground (arith, member-erase x y xs)

pub erase-NoDup : (x : ℕ) (xs : List ℕ) → NoDup xs → NoDup (erase x xs)
erase-NoDup x [] nd = tt
erase-NoDup x (z ∷ xs) (fresh, nd) =
    let rest = erase-NoDup x xs nd in
    elim (Bool-cases (x == z)) [
      | inl e ↦ rw e rest
      | inr e ↦ rw e (ground (arith, member-erase x z xs), rest)
    ]
