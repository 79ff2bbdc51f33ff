-- ===== src/Tests/Numbers.antt =====
-- Account numbers, card numbers and conversions: the theorems at concrete numbers.
use bank_fastapi.Prelude.{ℕ, ◌+◌, ◌%◌, ◌<◌, ◌≡◌, ◌≢◌, refl, List, [], ◌∷◌, ◌++◌, arith}
use mathlib.Core.List.{reverse}
use bank_fastapi.Models.{Currency}
use bank_fastapi.Core.{ok}
use bank_fastapi.Account.Conversion.{calculate_conversion, get_exchange_rate, exchange_rates}
use bank_fastapi.Account.Conversion.Bounds.{IsPriced, calculate_conversion-IsPriced, there_and_back}
use bank_fastapi.Account.Number.{calculate_luhn_check_digit}
use bank_fastapi.Account.Number.Luhn.{weighted, calculate_luhn_check_digit-weighted}

calculate_conversion-IsPriced_example :
    IsPriced 12345 (calculate_conversion 12345 Currency.usd Currency.kes)
calculate_conversion-IsPriced_example =
    calculate_conversion-IsPriced 12345 Currency.usd Currency.kes

-- One shilling becomes a cent, and the cent becomes 1.64 shillings.
shilling_gains :
    there_and_back 100 Currency.kes Currency.usd
    ≡ ok (record { converted_amount = 164; exchange_rate = 1635000; conversion_fee = 0 })
unfolding calculate_conversion get_exchange_rate exchange_rates
shilling_gains = refl

abbrev digits : List ℕ
digits = 7 ∷ 9 ∷ 9 ∷ 2 ∷ 7 ∷ 3 ∷ 9 ∷ 8 ∷ 7 ∷ 1 ∷ []

-- The check digit of 7992739871 is 3 by the Luhn algorithm, which doubles the last of the digits.
not_luhn : calculate_luhn_check_digit digits ≡ 4
unfolding calculate_luhn_check_digit
not_luhn = refl

-- A Luhn test of the full number leaves its last digit as it is and doubles the one before.
number_fails_luhn : weighted (reverse (digits ++ 4 ∷ [])) % 10 ≢ 0
number_fails_luhn = omega arith

calculate_luhn_check_digit-weighted_example :
    (calculate_luhn_check_digit digits < 10)
    × ((weighted (reverse digits) + calculate_luhn_check_digit digits) % 10 ≡ 0)
calculate_luhn_check_digit-weighted_example = calculate_luhn_check_digit-weighted digits
