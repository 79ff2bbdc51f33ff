-- ===== src/Card/Expiry.antt =====
-- virtual_card/utils.py: `generate_card_expiry_date`. A date is its year, month and day, and adding
-- days is the calendar's successor, as in Python's `datetime`.
use bank_fastapi.Prelude.{
  ℕ, zero, suc, ◌+◌, ◌-◌, ◌*◌, ◌%◌, ◌≤◌, ◌≡◌, Bool, ◌&&◌, ◌||◌, not, arith, ltb, ◌==◌,
  if◌then◌else◌,
}

pub record Date : Type 0 where
  pub year : ℕ
  pub month : ℕ
  pub day : ℕ

abbrev pub is_leap : ℕ → Bool
is_leap year = (year % 4 == 0) && (not (year % 100 == 0) || (year % 400 == 0))

abbrev pub days_in_month : ℕ → ℕ → ℕ
days_in_month year month =
    if month == 2
    then (if is_leap year then 29 else 28)
    else (if (month == 4) || ((month == 6) || ((month == 9) || (month == 11))) then 30 else 31)

abbrev pub IsDate : Date → Type 0
IsDate d = (1 ≤ d.month) × (d.month ≤ 12) × (1 ≤ d.day) × (d.day ≤ days_in_month d.year d.month)

-- `date.replace(..., month=..., day=1)`: the first day of the next month.
unfoldable pub next_month : Date → Date
next_month d =
    if d.month == 12
    then record { year = d.year + 1; month = 1; day = 1 }
    else record { year = d.year; month = d.month + 1; day = 1 }

unfoldable pub next_day : Date → Date
next_day d =
    if ltb d.day (days_in_month d.year d.month) then record d { day = d.day + 1 } else next_month d

-- `date - timedelta(days=1)`
unfoldable pub previous_day : Date → Date
previous_day d =
    if ltb 1 d.day
    then record d { day = d.day - 1 }
    else (if d.month == 1
        then record { year = d.year - 1; month = 12; day = days_in_month (d.year - 1) 12 }
        else record {
          year = d.year;
          month = d.month - 1;
          day = days_in_month d.year (d.month - 1);
        })

-- `date + timedelta(days=n)`
unfoldable pub add_days : ℕ → Date → Date
add_days zero d = d
add_days (suc n) d = add_days n (next_day d)

unfoldable pub generate_card_expiry_date : Date → Date
generate_card_expiry_date today = previous_day (next_month (add_days (365 * 3) today))

next_day-IsDate : (d : Date) → IsDate d → IsDate (next_day d)
unfolding next_day next_month
next_day-IsDate d h = (ground arith, ground arith, ground arith, ground arith)

add_days-IsDate : (n : ℕ) (d : Date) → IsDate d → IsDate (add_days n d)
unfolding add_days
add_days-IsDate zero d h = h
add_days-IsDate (suc n) d h = add_days-IsDate n (next_day d) (next_day-IsDate d h)

month_end :
    (d : Date)
    → IsDate d
    → (previous_day (next_month d) ≡ record d { day = days_in_month d.year d.month })
      × (d.day ≤ days_in_month d.year d.month)
unfolding previous_day next_month
month_end d h = (ground arith, h.3)

-- The expiry date that is generated on a day, for a card that is created without one, is the last day
-- of the month of the day that comes 1095 days later; so it is 1095 days ahead at least.
pub generate_card_expiry_date-IsMonthEnd :
    (today : Date)
    → IsDate today
    → let later = add_days (365 * 3) today in
      (generate_card_expiry_date today
        ≡ record later { day = days_in_month later.year later.month })
      × (later.day ≤ days_in_month later.year later.month)
unfolding generate_card_expiry_date
generate_card_expiry_date-IsMonthEnd today h =
    month_end (add_days (365 * 3) today) (add_days-IsDate (365 * 3) today h)
