-- ===== src/Models/Metadata.antt =====
-- The JSON columns `transaction_metadata` and `card_metadata`: Python dicts of JSON values.
use bank_fastapi.Prelude.{
  ℕ, ◌≡◌, refl, Bool, true, false, Option, none, some, String, str_eq, eq_iff, arith, if◌then◌else◌,
}
use bank_fastapi.Prelude.Int.{ℤ}

-- A number that the code stores as `str(x)` keeps its value: `amount` and `money` are cents, and
-- `ratio` is an exchange rate in ten-thousandths. Other text is `text`.
mutual
  pub data Value : Type 0 where
    text : String → Value
    amount : ℕ → Value
    money : ℤ → Value
    ratio : ℕ → Value
    time : ℕ → Value
    number : ℕ → Value
    flag : Bool → Value
    null : Value
    dict : Fields → Value

  pub data Fields : Type 0 where
    end : Fields
    field : String → Value → Fields → Fields

-- `d.get(k)`
abbrev pub get_field : String → Fields → Option Value
get_field k end = none
get_field k (field j v d) = if str_eq j k then some v else get_field k d

-- `d[k] = v`, and `{**d, k: v}`
abbrev pub set_field : String → Value → Fields → Fields
set_field k v end = field k v end
set_field k v (field j w d) = if str_eq j k then field j v d else field j w (set_field k v d)

-- `{**d, **e}`
abbrev pub merge : Fields → Fields → Fields
merge d end = d
merge d (field k v e) = merge (set_field k v d) e

-- `not metadata`: the column is NULL or the dict is empty.
abbrev pub is_blank : Option Fields → Bool
is_blank none = true
is_blank (some end) = true
is_blank (some (field k v d)) = false

-- `metadata or {}`
abbrev pub or_empty : Option Fields → Fields
or_empty none = end
or_empty (some d) = d

pub get_field-set_field :
    (k j : String) (v : Value) (d : Fields)
    → get_field j (set_field k v d) ≡ (if str_eq k j then some v else get_field j d)
get_field-set_field k j v end = refl
get_field-set_field k j v (field i w d) =
    ground (arith, eq_iff k j, eq_iff i k, eq_iff i j, get_field-set_field k j v d)
