-- ===== src/Account/Conversion.antt =====
-- bank_account/utils.py: static exchange rates and the conversion of an amount. Amounts are in
-- cents and rates in ten-thousandths, so every `quantize` is a division that rounds half up.
pub mod Bounds
use bank_fastapi.Prelude.{ℕ, ◌+◌, ◌-◌, ◌*◌, ◌/◌, Option, none, some, if◌then◌else◌}
use bank_fastapi.Models.{Currency, same_currency}
use bank_fastapi.Core.{Error, Result, ok, err}

-- `EXCHANGE_RATES`; a pair of equal currencies has no entry.
unfoldable pub exchange_rates : Currency → Currency → Option ℕ
exchange_rates Currency.usd Currency.eur = some 9300
exchange_rates Currency.usd Currency.gbp = some 7900
exchange_rates Currency.usd Currency.kes = some 1635000
exchange_rates Currency.eur Currency.usd = some 10800
exchange_rates Currency.eur Currency.gbp = some 7500
exchange_rates Currency.eur Currency.kes = some 1762300
exchange_rates Currency.gbp Currency.usd = some 12600
exchange_rates Currency.gbp Currency.eur = some 11700
exchange_rates Currency.gbp Currency.kes = some 2057000
exchange_rates Currency.kes Currency.usd = some 61
exchange_rates Currency.kes Currency.gbp = some 49
exchange_rates Currency.kes Currency.eur = some 57
exchange_rates _ _ = none

-- The table's rates have four decimals or fewer, so the `quantize` there changes none.
unfoldable pub get_exchange_rate : Currency → Currency → Result ℕ
unfolding exchange_rates
get_exchange_rate source target =
    if same_currency source target then ok 10000 else elim (exchange_rates source target) [
      | some rate ↦ ok rate
      | none ↦ err (Error.validation_failed "Exchange rate not available")
    ]

-- `(x / d).quantize(..., ROUND_HALF_UP)` of a number that is not negative
abbrev pub round_half_up : ℕ → ℕ → ℕ
round_half_up x d = (2 * x + d) / (2 * d)

-- `CONVERSION_FEE_RATE` is 0.005.
abbrev pub conversion_fee_of : ℕ → ℕ
conversion_fee_of amount = round_half_up (amount * 5) 1000

abbrev pub converted_at : ℕ → ℕ → ℕ
converted_at rate amount = round_half_up ((amount - conversion_fee_of amount) * rate) 10000

-- The converted amount, the exchange rate and the fee.
pub record Conversion : Type 0 where
  pub converted_amount : ℕ
  pub exchange_rate : ℕ
  pub conversion_fee : ℕ

unfoldable pub calculate_conversion : ℕ → Currency → Currency → Result Conversion
calculate_conversion amount source target =
    if same_currency source target
    then ok (record { converted_amount = amount; exchange_rate = 10000; conversion_fee = 0 })
    else elim (get_exchange_rate source target) [
      | err e ↦ err e
      | ok rate ↦ ok (record {
        converted_amount = converted_at rate amount;
        exchange_rate = rate;
        conversion_fee = conversion_fee_of amount;
      })
    ]
