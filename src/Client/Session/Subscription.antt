-- ===== src/Client/Session/Subscription.antt =====
-- The subscription that the client sends: a command byte, a count and the symbols, in 2 bytes each.
use market_data_handle.Prelude.{
  ℕ, zero, suc, ◌+◌, ◌/◌, ◌%◌, ◌^◌, ◌≤◌, ◌<◌, ◌≡◌, refl, Option, none, some, List, [], ◌∷◌, map,
  concat, ◌==◌, if◌then◌else◌, length, All, u16, IsU16, arith,
}
use market_data_handle.Protocol.Bytes.{le_bytes, le_value}
use market_data_handle.Client.Session.{ids_from, sym_ids}
use market_data_handle.Client.Socket.{subscription_bytes, cmd_subscribe}

-- A reader of the format.
abbrev pub read_ids : ℕ → List ℕ → Option (List ℕ)
read_ids zero [] = some []
read_ids zero (x ∷ xs) = none
read_ids (suc n) [] = none
read_ids (suc n) (a ∷ []) = none
read_ids (suc n) (a ∷ b ∷ xs) = elim (read_ids n xs) [
  | none ↦ none
  | some ids ↦ some (le_value (a ∷ b ∷ []) ∷ ids)
]

abbrev pub read_subscription : List ℕ → Option (List ℕ)
read_subscription (cmd ∷ a ∷ b ∷ xs) =
    if cmd == cmd_subscribe then read_ids (le_value (a ∷ b ∷ [])) xs else none
read_subscription xs = none

read_ids-bytes :
    (ids : List ℕ)
    → All IsU16 ids
    → read_ids (length ids) (concat (map (le_bytes 2) ids)) ≡ some ids
read_ids-bytes [] h = refl
read_ids-bytes (x ∷ ids) (hx, h) =
    let same : le_value (x % 256 ∷ x / 256 % 256 ∷ []) ≡ x = omega arith in
    rw (read_ids-bytes ids h, same) refl

-- Up to 65535 symbols, each below 2^16, the bytes that are sent tell them, in their order.
pub read-subscription_bytes :
    (ids : List ℕ)
    → All IsU16 ids
    → length ids < 2 ^ 16
    → read_subscription (subscription_bytes ids) ≡ some ids
unfolding subscription_bytes
read-subscription_bytes ids fits few =
    let count : le_value (u16 (length ids) % 256 ∷ u16 (length ids) / 256 % 256 ∷ []) ≡ length ids =
      omega arith in
    rw count (read_ids-bytes ids fits)

ids_from-IsU16 : (n i : ℕ) → n + i ≤ 2 ^ 16 → All IsU16 (ids_from n i)
unfolding ids_from
ids_from-IsU16 zero i h = tt
ids_from-IsU16 (suc n) i h = (omega arith, ids_from-IsU16 n (suc i) (omega arith))

length-ids_from : (n i : ℕ) → length (ids_from n i) ≡ n
unfolding ids_from
length-ids_from zero i = refl
length-ids_from (suc n) i = omega (arith, length-ids_from n (suc i))

-- What the client asks for: the symbols from 0 to the 16 low bits of `num_sym`, less one.
pub read-sym_ids :
    (num_sym : ℕ)
    → (read_subscription (subscription_bytes (sym_ids num_sym)) ≡ some (sym_ids num_sym))
      × (length (sym_ids num_sym) ≡ u16 num_sym)
unfolding sym_ids
read-sym_ids num_sym =
    let count = length-ids_from (u16 num_sym) 0 in
    (
      read-subscription_bytes (ids_from (u16 num_sym) 0)
          (ids_from-IsU16 (u16 num_sym) 0 (omega arith)) (omega (arith, count)),
      count,
    )
