-- ===== src/Card/Number.antt =====
-- virtual_card/utils.py: `generate_visa_card_number`. A number is its list of decimal digits.
use bank_fastapi.Prelude.{
  ℕ, ◌+◌, ◌-◌, ◌*◌, ◌%◌, List, [], ◌∷◌, ◌++◌, Bool, true, false, not, ltb, if◌then◌else◌,
}
use mathlib.Core.List.{reverse}
use bank_fastapi.Account.Number.{random_digits}

-- One turn of the loop: the digit as it is added to `total`; `odd` is `i % 2 == 1`.
abbrev pub visa_term : Bool → ℕ → ℕ
visa_term false digit = digit
visa_term true digit = if ltb 9 (digit * 2) then digit * 2 - 9 else digit * 2

abbrev pub visa_loop : Bool → ℕ → List ℕ → ℕ
visa_loop odd total [] = total
visa_loop odd total (digit ∷ digits) = visa_loop (not odd) (total + visa_term odd digit) digits

unfoldable pub visa_check_digit : List ℕ → ℕ
visa_check_digit partial = let total = visa_loop false 0 (reverse partial) in (10 - total % 10) % 10

unfoldable pub generate_visa_card_number : (ℕ → ℕ) → List ℕ
generate_visa_card_number digit_at =
    let partial_number = 4 ∷ random_digits digit_at 14 in
    partial_number ++ visa_check_digit partial_number ∷ []
