-- ===== src/Account/Conversion/Bounds.antt =====
-- What the rounding of a conversion may cost or gain.
use bank_fastapi.Prelude.{ℕ, ◌+◌, ◌-◌, ◌*◌, ◌≤◌, arith}
use bank_fastapi.Models.{Currency}
use bank_fastapi.Core.{Result, ok, err}
use bank_fastapi.Account.Conversion.{
  exchange_rates, get_exchange_rate, conversion_fee_of, Conversion, calculate_conversion,
}

-- The charges of a conversion, in cents of the source, and the error of its rounding, in
-- ten-thousandths of a cent of the target.
abbrev pub IsPriced : ℕ → Result Conversion → Type 0
IsPriced amount (err e) = ⊥
IsPriced amount (ok c) =
    (c.conversion_fee ≤ amount)
    × (2 * (10000 * c.converted_amount)
        ≤ 2 * ((amount - c.conversion_fee) * c.exchange_rate) + 10000)
    × (2 * ((amount - c.conversion_fee) * c.exchange_rate)
        ≤ 2 * (10000 * c.converted_amount) + 10000)

fee_below : (amount : ℕ) → conversion_fee_of amount ≤ amount
fee_below amount = omega arith

-- Every pair of currencies has a rate: a conversion always returns. Its fee is at most the amount,
-- and the converted amount is within half a cent of the rest of the amount at the rate.
pub calculate_conversion-IsPriced :
    (amount : ℕ) (source target : Currency)
    → IsPriced amount (calculate_conversion amount source target)
unfolding calculate_conversion get_exchange_rate exchange_rates
calculate_conversion-IsPriced amount source target = ground (arith, fee_below amount)

-- What converting there and back gives, with a fee each way.
abbrev pub there_and_back : ℕ → Currency → Currency → Result Conversion
there_and_back amount source target = elim (calculate_conversion amount source target) [
  | err e ↦ err e
  | ok c ↦ calculate_conversion c.converted_amount target source
]

abbrev pub Returns : ℕ → Result Conversion → Type 0
Returns bound (err e) = ⊥
Returns bound (ok c) = c.converted_amount ≤ bound

-- Converting an amount to another currency and back gains at most 206 cents: the half cents that
-- the two roundings add, at the highest rate.
pub there_and_back-Returns :
    (amount : ℕ) (source target : Currency)
    → Returns (amount + 206) (there_and_back amount source target)
unfolding calculate_conversion get_exchange_rate exchange_rates
there_and_back-Returns amount source target = ground arith
