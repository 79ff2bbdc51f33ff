-- ===== src/Account/Number.antt =====
-- bank_account/utils.py: account numbers and their check digit. A number's text is its list of
-- decimal digits.
pub mod Luhn
use Prim.Native.String
use bank_fastapi.Prelude.{
  String, ◌==◌, ℕ, zero, suc, ◌+◌, ◌-◌, ◌*◌, ◌/◌, ◌%◌, List, [], ◌∷◌, ◌++◌, Bool, true, false, ◌||◌,
  ltb, if◌then◌else◌,
}
use mathlib.Core.List.{reverse}
use bank_fastapi.Prelude.Rows.{length}
use bank_fastapi.Models.{Currency}
use bank_fastapi.Core.{Error, Result, ok, err}

-- `sum` of a list of numbers
abbrev pub sum : List ℕ → ℕ
sum [] = 0
sum (x ∷ xs) = x + sum xs

-- `split_into_digits` at an integer below 100: `str` writes no leading zero.
abbrev pub split_into_digits : ℕ → List ℕ
split_into_digits n = if ltb n 10 then n ∷ [] else (n / 10) ∷ (n % 10) ∷ []

-- `xs[::2]`
abbrev pub every_second : List ℕ → List ℕ
every_second [] = []
every_second (x ∷ []) = x ∷ []
every_second (x ∷ y ∷ xs) = x ∷ every_second xs

-- `xs[1:]`
abbrev pub rest_of : List ℕ → List ℕ
rest_of [] = []
rest_of (x ∷ xs) = xs

-- the loop over `even_digits`
abbrev pub add_doubled : ℕ → List ℕ → ℕ
add_doubled total [] = total
add_doubled total (d ∷ ds) = add_doubled (total + sum (split_into_digits (d * 2))) ds

-- `digits[-1::-2]` and `digits[-2::-2]` are every second digit of the reversed list, from its
-- first and from its second.
unfoldable pub calculate_luhn_check_digit : List ℕ → ℕ
calculate_luhn_check_digit digits =
    let odd_digits = every_second (reverse digits) in
    let even_digits = every_second (rest_of (reverse digits)) in
    let total = add_doubled (sum odd_digits) even_digits in (10 - total % 10) % 10

-- The settings that the number is built from, as digits.
pub record Settings : Type 0 where
  pub bank_code : List ℕ
  pub bank_branch_code : List ℕ
  pub currency_code : Currency → List ℕ

abbrev is_nil : List ℕ → Bool
is_nil [] = true
is_nil (x ∷ xs) = false

unfoldable pub get_currency_code : Settings → Currency → Result (List ℕ)
get_currency_code settings currency =
    if is_nil (settings.currency_code currency)
    then err (Error.validation_failed "Invalid currency")
    else ok (settings.currency_code currency)

-- `secrets.choice` for each position: `digit_at i` is the i-th draw.
abbrev pub random_digits : (ℕ → ℕ) → ℕ → List ℕ
random_digits digit_at zero = []
random_digits digit_at (suc n) = digit_at n ∷ random_digits digit_at n

-- `16 - len(prefix) - 1` below zero gives an empty `range`, as the truncated difference does.
unfoldable pub generate_account_number : Settings → (ℕ → ℕ) → Currency → Result (List ℕ)
unfolding get_currency_code
generate_account_number settings digit_at currency =
    if is_nil settings.bank_code || is_nil settings.bank_branch_code
    then err (Error.bank_api_error "Bank or Branch code not configured")
    else elim (get_currency_code settings currency) [
      | err e ↦ err e
      | ok code ↦
          let prefix = settings.bank_code ++ (settings.bank_branch_code ++ code) in
          let partial_number = prefix ++ random_digits digit_at (16 - length prefix - 1) in
          ok (partial_number ++ calculate_luhn_check_digit partial_number ∷ [])
    ]

-- A digit and a number as text.
abbrev pub digit_text : ℕ → String
digit_text d =
    if d == 0
    then "0"
    else if d == 1
    then "1"
    else if d == 2
    then "2"
    else if d == 3
    then "3"
    else if d == 4
    then "4"
    else if d == 5
    then "5"
    else if d == 6
    then "6"
    else if d == 7
    then "7"
    else if d == 8
    then "8"
    else "9"

abbrev pub number_text : List ℕ → String
number_text [] = ""
number_text (d ∷ ds) = String.◌++◌ (digit_text d) (number_text ds)
