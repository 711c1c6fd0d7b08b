-- ===== src/Text/Width.antt =====
-- The widths of padded strings.
use market_data_handle.Prelude.{
  ℕ, ◌-◌, ◌≡◌, List, length, length-append, length-replicate, replicate, max, arith,
}
use market_data_handle.Text.{left, right}

pub length-right : (c n : ℕ) (s : List ℕ) → length (right c n s) ≡ max n (length s)
unfolding right
length-right c n s = omega (
  arith,
  length-append (replicate {A = ℕ} (n - length s) c) s,
  length-replicate {A = ℕ} (n - length s) c,
)

pub length-left : (c n : ℕ) (s : List ℕ) → length (left c n s) ≡ max n (length s)
unfolding left
length-left c n s =
    omega (
      arith,
      length-append s (replicate (n - length s) c),
      length-replicate {A = ℕ} (n - length s) c,
    )
