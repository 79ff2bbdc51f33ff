-- ===== src/Card/Luhn.antt =====
-- The check digit of a card number, and that of an account number.
use bank_fastapi.Prelude.{ℕ, ◌+◌, ◌*◌, ◌<◌, ◌≡◌, refl, List, [], ◌∷◌, true, false, arith}
use mathlib.Core.List.{reverse, reverse_aux}
use bank_fastapi.Prelude.Rows.{All}
use bank_fastapi.Account.Number.{
  sum, every_second, rest_of, add_doubled, calculate_luhn_check_digit,
}
use bank_fastapi.Account.Number.Luhn.{weighted, digit_sum, weighted-slices}
use bank_fastapi.Card.Number.{visa_term, visa_loop, visa_check_digit}

-- Decimal digits.
abbrev pub IsDecimal : List ℕ → Type 0
IsDecimal digits = All (λ d. d < 10) digits

-- A doubled digit, by either of the two ways of adding its digits.
doubled : (d : ℕ) → d < 10 → visa_term true d ≡ digit_sum (d * 2)
doubled d h = ground arith

visa_loop-weighted : (n : ℕ) (ds : List ℕ) → IsDecimal ds → visa_loop false n ds ≡ n + weighted ds
visa_loop-weighted n [] h = omega arith
visa_loop-weighted n (d ∷ []) h = omega arith
visa_loop-weighted n (d ∷ e ∷ ds) h =
    ground (arith, doubled e h.1.0, visa_loop-weighted (n + d + visa_term true e) ds h.1.1)

reverse-IsDecimal : (ds : List ℕ) → IsDecimal ds → IsDecimal (reverse ds)
reverse-IsDecimal ds h = go ds [] h tt
  where
    go : (xs acc : List ℕ) → IsDecimal xs → IsDecimal acc → IsDecimal (reverse_aux xs acc)
    go [] acc hx ha = ha
    go (x ∷ xs) acc hx ha = go xs (x ∷ acc) hx.1 (hx.0, ha)

-- The check digit of `generate_visa_card_number` is the one that `calculate_luhn_check_digit` gives
-- for the same decimal digits.
pub visa_check_digit-luhn :
    (digits : List ℕ)
    → IsDecimal digits
    → visa_check_digit digits ≡ calculate_luhn_check_digit digits
unfolding visa_check_digit calculate_luhn_check_digit
visa_check_digit-luhn digits h =
    let a = visa_loop-weighted 0 (reverse digits) (reverse-IsDecimal digits h) in
    let b = weighted-slices (reverse digits) in
    let same : visa_loop false 0 (reverse digits)
        ≡ add_doubled (sum (every_second (reverse digits)))
            (every_second (rest_of (reverse digits))) =
      omega (arith, a, b) in
    rw same refl
