-- ===== src/Protocol/Checksum.antt =====
-- What `compute_checksum` guarantees: the range of the sum, how it runs over two parts of a buffer,
-- and that one changed byte always shows.
use Prim.Native.Nat.{bit_xor}
use market_data_handle.Prelude.{
  ℕ, zero, suc, ◌+◌, ◌*◌, ◌%◌, ◌^◌, ◌<◌, ◌≡◌, ◌≢◌, ap, ◌∙◌, List, [], ◌∷◌, ◌++◌, arith, length,
  IsByte, IsU32, u32,
}
use market_data_handle.Prelude.Xor.{bit_xor-lt, bit_xor_cancel, bit_xor_cancel_right}
use market_data_handle.Protocol.{checksum_from, compute_checksum}

-- The term that byte `b` at index `i` contributes.
abbrev pub lane : ℕ → ℕ → ℕ
lane i b = u32 (b * 2 ^ (i % 4 * 8))

pub checksum_from-lt : (i cs : ℕ) (bs : List ℕ) → IsU32 cs → IsU32 (checksum_from i cs bs)
unfolding checksum_from
checksum_from-lt i cs [] h = h
checksum_from-lt i cs (b ∷ bs) h =
    checksum_from-lt (i + 1) _ bs (bit_xor-lt 32 cs (lane i b) h (omega arith))

-- The checksum of any buffer is a `uint32_t`.
pub compute_checksum-lt : (bs : List ℕ) → IsU32 (compute_checksum bs)
unfolding compute_checksum
compute_checksum-lt bs = checksum_from-lt 0 0 bs (omega arith)

pub checksum_from-append :
    (i cs : ℕ) (xs ys : List ℕ)
    → checksum_from i cs (xs ++ ys) ≡ checksum_from (i + length xs) (checksum_from i cs xs) ys
unfolding checksum_from
checksum_from-append i cs [] ys = ap (λ k. checksum_from k cs ys) (omega arith)
checksum_from-append i cs (x ∷ xs) ys =
    checksum_from-append (i + 1) (bit_xor cs (lane i x)) xs ys
    ∙ ap (λ k. checksum_from k (checksum_from (i + 1) (bit_xor cs (lane i x)) xs) ys) (omega arith)

-- The rest of a run tells its starting value.
checksum_from_cancel :
    (i c d : ℕ) (bs : List ℕ) → checksum_from i c bs ≡ checksum_from i d bs → c ≡ d
unfolding checksum_from
checksum_from_cancel i c d [] h = h
checksum_from_cancel i c d (b ∷ bs) h =
    bit_xor_cancel_right (lane i b) c d (checksum_from_cancel (i + 1) _ _ bs h)

-- A lane of 8 bits within 32 loses nothing of a byte.
lane_cancel_at :
    (k x y : ℕ)
    → k < 4
    → IsByte x
    → IsByte y
    → u32 (x * 2 ^ (k * 8)) ≡ u32 (y * 2 ^ (k * 8))
    → x ≡ y
lane_cancel_at zero x y hk hx hy h = omega arith
lane_cancel_at (suc zero) x y hk hx hy h = omega arith
lane_cancel_at (suc (suc zero)) x y hk hx hy h = omega arith
lane_cancel_at (suc (suc (suc zero))) x y hk hx hy h = omega arith
lane_cancel_at (suc (suc (suc (suc k)))) x y hk hx hy h = absurd (omega arith)

lane_cancel : (i x y : ℕ) → IsByte x → IsByte y → lane i x ≡ lane i y → x ≡ y
lane_cancel i x y hx hy h = lane_cancel_at (i % 4) x y (omega arith) hx hy h

-- Two buffers that differ in exactly one byte never have one checksum.
pub compute_checksum_detects :
    (front back : List ℕ) (x y : ℕ)
    → IsByte x
    → IsByte y
    → x ≢ y
    → compute_checksum (front ++ (x ∷ back)) ≢ compute_checksum (front ++ (y ∷ back))
unfolding compute_checksum
compute_checksum_detects front back x y hx hy ne h =
    let at : ℕ = 0 + length front in
    let cs : ℕ = checksum_from 0 0 front in
    let tails : checksum_from at cs (x ∷ back) ≡ checksum_from at cs (y ∷ back) =
      rw (checksum_from-append, checksum_from-append) at h in
    let lanes : bit_xor cs (lane at x) ≡ bit_xor cs (lane at y) =
      unfold checksum_from in checksum_from_cancel (at + 1) _ _ back tails in
    ne (lane_cancel at x y hx hy (bit_xor_cancel cs _ _ lanes))
