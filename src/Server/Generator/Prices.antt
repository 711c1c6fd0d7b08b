-- ===== src/Server/Generator/Prices.antt =====
-- The range of the generated prices.
use market_data_handle.Prelude.{◌≡◌, false, arith}
use market_data_handle.Server.Generator.{Doubles, SymbolState, next_price}

-- Where no double is less than itself, and 10^6 is not less than 1: whatever the sample and the
-- symbol, the next price is neither less than 1 nor greater than 10^6.
pub next_price_bounds :
    {D R : Type 0} (dbl : Doubles D R)
    → ((d : D) → dbl.lt d d ≡ false)
    → dbl.lt (dbl.literal 1000000 0) (dbl.literal 1 0) ≡ false
    → (z : D) (s : SymbolState D)
    → (dbl.lt (next_price dbl z s) (dbl.literal 1 0) ≡ false)
      × (dbl.lt (dbl.literal 1000000 0) (next_price dbl z s) ≡ false)
unfolding next_price
next_price_bounds {D} {R} dbl irreflexive apart z s =
    let low = dbl.literal 1 0 in
    let high = dbl.literal 1000000 0 in
    let il = irreflexive low in let ih = irreflexive high in ground arith
