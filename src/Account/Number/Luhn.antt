-- ===== src/Account/Number/Luhn.antt =====
-- The check digit and the form of an account number.
use bank_fastapi.Prelude.{
  ℕ, zero, suc, ◌+◌, ◌-◌, ◌*◌, ◌%◌, ◌≤◌, ◌<◌, ◌≡◌, refl, List, [], ◌∷◌, ◌++◌, arith, ap,
}
use mathlib.Core.List.{reverse}
use bank_fastapi.Prelude.Rows.{length}
use bank_fastapi.Models.{Currency}
use bank_fastapi.Core.{Result, ok, err}
use bank_fastapi.Account.Number.{
  sum, every_second, rest_of, add_doubled, split_into_digits, calculate_luhn_check_digit, Settings,
  get_currency_code, random_digits, generate_account_number,
}

-- The weighted sum of a number's digits, with every second one doubled, from the second last on.
abbrev pub digit_sum : ℕ → ℕ
digit_sum d = sum (split_into_digits d)

abbrev pub weighted : List ℕ → ℕ
weighted [] = 0
weighted (d ∷ []) = d
weighted (d ∷ e ∷ ds) = d + digit_sum (e * 2) + weighted ds

add_doubled-add : (n m : ℕ) (ds : List ℕ) → add_doubled (n + m) ds ≡ n + add_doubled m ds
add_doubled-add n m [] = refl
add_doubled-add n m (d ∷ ds) =
    let e = digit_sum (d * 2) in
    let step : n + m + e ≡ n + (m + e) = omega arith in rw step (add_doubled-add n (m + e) ds)

-- The two slices of the reversed digits, summed the way the code sums them.
pub weighted-slices :
    (ds : List ℕ) → add_doubled (sum (every_second ds)) (every_second (rest_of ds)) ≡ weighted ds
weighted-slices [] = refl
weighted-slices (d ∷ []) = omega arith
weighted-slices (d ∷ e ∷ []) = omega arith
weighted-slices (d ∷ e ∷ f ∷ ds) =
    let rest = every_second (rest_of (f ∷ ds)) in
    let odd = sum (every_second (f ∷ ds)) in
    let a = add_doubled-add (d + digit_sum (e * 2)) odd rest in
    let step : d + odd + digit_sum (e * 2) ≡ d + digit_sum (e * 2) + odd = omega arith in
    rw step (rw a (ap (λ n. d + digit_sum (e * 2) + n) (weighted-slices (f ∷ ds))))

-- The check digit is a digit, and it fills up the weighted sum of the digits, in which the last
-- digit counts once and the one before it doubled, to a multiple of ten.
pub calculate_luhn_check_digit-weighted :
    (digits : List ℕ)
    → (calculate_luhn_check_digit digits < 10)
      × ((weighted (reverse digits) + calculate_luhn_check_digit digits) % 10 ≡ 0)
unfolding calculate_luhn_check_digit
calculate_luhn_check_digit-weighted digits =
    let e = weighted-slices (reverse digits) in (omega arith, omega (arith, e))

length-random_digits : (digit_at : ℕ → ℕ) (n : ℕ) → length (random_digits digit_at n) ≡ n
length-random_digits digit_at zero = refl
length-random_digits digit_at (suc n) = ap suc (length-random_digits digit_at n)

length-append : (xs ys : List ℕ) → length (xs ++ ys) ≡ length xs + length ys
length-append [] ys = omega arith
length-append (x ∷ xs) ys = ground (arith, length-append xs ys)

-- What an account number is made of.
abbrev pub IsNumber : Settings → Currency → Result (List ℕ) → Type 0
IsNumber settings currency (err e) = Unit {0}
IsNumber settings currency (ok number) =
    (partial : List ℕ) × (number ≡ partial ++ calculate_luhn_check_digit partial ∷ [])
    × (length number ≡ 16)

-- The digits that the settings give to every number of a currency.
abbrev pub prefix_of : Settings → Currency → List ℕ
prefix_of settings currency =
    settings.bank_code ++ (settings.bank_branch_code ++ settings.currency_code currency)

number-length :
    (prefix random : List ℕ) (check : ℕ)
    → length prefix ≤ 15
    → length random ≡ 16 - length prefix - 1
    → length ((prefix ++ random) ++ check ∷ []) ≡ 16
number-length prefix random check short e =
    let inner = length-append prefix random in
    let outer = length-append (prefix ++ random) (check ∷ []) in
    let one : length (check ∷ []) ≡ 1 = omega arith in omega (arith, inner, outer, one, e, short)

-- An account number that is generated ends with the check digit of the digits before it, and has
-- 16 digits if the configured prefix has at most 15.
pub generate_account_number-IsNumber :
    (settings : Settings) (digit_at : ℕ → ℕ) (currency : Currency)
    → length (prefix_of settings currency) ≤ 15
    → IsNumber settings currency (generate_account_number settings digit_at currency)
unfolding generate_account_number get_currency_code
generate_account_number-IsNumber settings digit_at currency short =
    let prefix = prefix_of settings currency in
    let random = random_digits digit_at (16 - length prefix - 1) in
    let long =
      number-length prefix random (calculate_luhn_check_digit (prefix ++ random)) short
        (length-random_digits digit_at (16 - length prefix - 1)) in
    let number = (prefix ++ random) ++ calculate_luhn_check_digit (prefix ++ random) ∷ [] in
    let made : IsNumber settings currency (ok number) = (prefix ++ random, refl, long) in
    ground (arith, made)
