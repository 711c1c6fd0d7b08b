-- ===== src/Text.antt =====
-- What the sources use of std::string and of the conversions between numbers and text:
-- `std::to_string`, `std::stoi`, `std::stoul`, `==`, `std::setw`. A string is the list of its bytes.
pub mod Decimal
pub mod Width
use Prim.Native.Char.{code}
use Prim.Native.String.{String}
use market_data_handle.Prelude.{
  ℕ, zero, suc, ◌+◌, ◌-◌, ◌*◌, ◌/◌, ◌%◌, ◌^◌, Bool, true, false, ◌&&◌, ◌||◌, Option, none, some,
  List, [], ◌∷◌, ◌++◌, ◌==◌, if◌then◌else◌, ltb, leb, length, replicate, u16, u64_max,
}

-- The bytes of an ASCII literal.
abbrev pub codes : String → List ℕ
codes String.[] = []
codes (String.◌∷◌ c s) = code c ∷ codes s

-- `operator==`
abbrev pub same : List ℕ → List ℕ → Bool
same [] [] = true
same [] (y ∷ ys) = false
same (x ∷ xs) [] = false
same (x ∷ xs) (y ∷ ys) = x == y && same xs ys

-- `std::to_string` of a `uint64_t`, which has 20 digits at most.
unfoldable pub digits : ℕ → ℕ → List ℕ → List ℕ
digits zero n acc = acc
digits (suc fuel) n acc =
    let more = digits fuel (n / 10) ((b'0' + n % 10) ∷ acc) in
    if ltb n 10 then (b'0' + n) ∷ acc else more

unfoldable pub to_string : ℕ → List ℕ
to_string n = digits 20 n []

-- The result of a conversion, or the exception that it throws.
pub data Read (A : Type 0) : Type 0 where
  value : A → Read A
  invalid_argument : Read A
  out_of_range : Read A

-- What follows a conversion, unless it threw.
abbrev pub and_then : {A B : Type 0} → Read A → (A → Read B) → Read B
and_then (value a) f = f a
and_then invalid_argument f = invalid_argument
and_then out_of_range f = out_of_range

abbrev pub is_digit : ℕ → Bool
is_digit c = leb b'0' c && leb c b'9'

-- `isspace`: the blank and the bytes 9 to 13.
abbrev pub is_space : ℕ → Bool
is_space c = c == 32 || (leb 9 c && leb c 13)

-- The number that the digits in front spell, behind those that spell `n`.
unfoldable pub read_digits : List ℕ → ℕ → ℕ
read_digits [] n = n
read_digits (c ∷ s) n =
    let more = read_digits s (n * 10 + (c - b'0')) in if is_digit c then more else n

unfoldable pub skip_spaces : List ℕ → List ℕ
skip_spaces [] = []
skip_spaces (c ∷ s) = let rest = skip_spaces s in if is_space c then rest else c ∷ s

abbrev pub starts_with_digit : List ℕ → Bool
starts_with_digit [] = false
starts_with_digit (c ∷ s) = is_digit c

-- Whether there is a minus sign, and what follows the sign.
abbrev pub read_sign : List ℕ → Bool × List ℕ
read_sign [] = (false, [])
read_sign (c ∷ s) =
    if c == b'-' then (true, s) else if c == b'+' then (false, s) else (false, c ∷ s)

-- `strtol` and `strtoul` up to their ranges: the sign and the number, if there are digits.
unfoldable pub read_number : List ℕ → Option (Bool × ℕ)
unfolding read_digits skip_spaces
read_number s =
    let (negative, rest) = read_sign (skip_spaces s) in
    if starts_with_digit rest then some (negative, read_digits rest 0) else none

-- An `int` that is stored in a `uint16_t`.
unfoldable pub stoi_u16 : List ℕ → Read ℕ
unfolding read_number
stoi_u16 s = elim (read_number s) [
  | none ↦ invalid_argument
  | some (negative, n) ↦
      if negative
      then (if ltb (2 ^ 31) n then out_of_range else value (u16 (2 ^ 16 - u16 n)))
      else if ltb n (2 ^ 31)
      then value (u16 n)
      else out_of_range
]

-- An `unsigned long`; a minus sign takes the number from 2^64.
unfoldable pub stoul : List ℕ → Read ℕ
unfolding read_number
stoul s = elim (read_number s) [
  | none ↦ invalid_argument
  | some (negative, n) ↦
      if ltb u64_max n
      then out_of_range
      else if negative
      then value ((2 ^ 64 - n) % 2 ^ 64)
      else value n
]

-- `<<` of a string behind `std::setw(n)`, with `std::right` and with `std::left`; `c` is the byte
-- that `std::setfill` has set.
unfoldable pub right : ℕ → ℕ → List ℕ → List ℕ
right c n s = replicate (n - length s) c ++ s

unfoldable pub left : ℕ → ℕ → List ℕ → List ℕ
left c n s = s ++ replicate (n - length s) c
