-- ===== src/Text/Decimal.antt =====
-- What `std::to_string` writes is read back by `std::stoul` and `std::stoi`.
use market_data_handle.Prelude.{
  ℕ, zero, suc, ◌+◌, ◌/◌, ◌%◌, ◌^◌, ◌<◌, ◌≡◌, refl, ap, true, false, some, List, [], ◌∷◌, arith,
  IsU16, IsU64,
}
use market_data_handle.Text.{
  digits, to_string, read_digits, read_number, skip_spaces, starts_with_digit, stoul, stoi_u16,
  value,
}

-- The digits are read as they were written, in front of whatever is there.
pub read_digits-digits :
    (fuel n : ℕ) (acc : List ℕ)
    → n < 10 ^ fuel
    → read_digits (digits fuel n acc) 0 ≡ read_digits acc n
unfolding digits read_digits
read_digits-digits zero n acc lt = ap (read_digits acc) (omega arith)
read_digits-digits (suc fuel) n acc lt =
    ground (arith, read_digits-digits fuel (n / 10) ((b'0' + n % 10) ∷ acc) (omega arith))

starts_with_digit-digits :
    (fuel n : ℕ) (acc : List ℕ)
    → starts_with_digit acc ≡ true
    → starts_with_digit (digits fuel n acc) ≡ true
unfolding digits
starts_with_digit-digits zero n acc h = h
starts_with_digit-digits (suc fuel) n acc h =
    ground (arith, starts_with_digit-digits fuel (n / 10) ((b'0' + n % 10) ∷ acc))

pub starts_with_digit-to_string : (n : ℕ) → starts_with_digit (to_string n) ≡ true
unfolding to_string digits
starts_with_digit-to_string n =
    ground (arith, starts_with_digit-digits 19 (n / 10) ((b'0' + n % 10) ∷ []))

read_number_digits :
    (s : List ℕ) → starts_with_digit s ≡ true → read_number s ≡ some (false, read_digits s 0)
unfolding read_number skip_spaces
read_number_digits [] h = absurd (ground arith)
read_number_digits (c ∷ s) h = ground arith

pub read_number-to_string : (n : ℕ) → IsU64 n → read_number (to_string n) ≡ some (false, n)
unfolding to_string read_digits
read_number-to_string n lt =
    let read : read_digits (to_string n) 0 ≡ n = read_digits-digits 20 n [] (omega arith) in
    rw (read_number_digits (to_string n) (starts_with_digit-to_string n), read) refl

pub stoul-to_string : (n : ℕ) → IsU64 n → stoul (to_string n) ≡ value n
unfolding stoul
stoul-to_string n lt = rw (read_number-to_string n lt, stoul) (ground arith)

pub stoi_u16-to_string : (n : ℕ) → IsU16 n → stoi_u16 (to_string n) ≡ value n
unfolding stoi_u16
stoi_u16-to_string n lt = rw (read_number-to_string n (omega arith), stoi_u16) (ground arith)
