-- ===== src/Transaction/Invariant.antt =====
-- The invariant of the money tables, and what keeps it: solvent accounts, credits that are not
-- negative, distinct transaction ids.
use bank_fastapi.Prelude.{
  ℕ, ◌≡◌, refl, inl, inr, Bool, true, false, Option, none, some, String, Bool-cases, sym, subst,
  str_eq,
}
use bank_fastapi.Prelude.Int.{ℤ, pos, ◌≤ℤ◌}
use bank_fastapi.Prelude.Rows.{
  All, All-append, All-modify-All, Distinct, Distinct-modify, Distinct-append,
}
use bank_fastapi.Models.{Transaction, FailureReason}
use bank_fastapi.Models.Metadata.{
  Value, Fields, end, field, or_empty, get_field, set_field, get_field-set_field,
}
use bank_fastapi.Core.{
  Db, Context, mutate_in_place, transaction_key, get_transaction, update_transaction,
}
use bank_fastapi.Transaction.Failure.{failed_row}
use bank_fastapi.Transaction.Deposit.{with_transaction}
use bank_fastapi.Transaction.Fraud.{assessed_row, assess_metadata, flagged_row}
use bank_fastapi.Transaction.Transfer.Complete.{converted_amount, decimal_of, completed_row}
use bank_fastapi.Transaction.Withdrawal.{settled_row}
use bank_fastapi.Transaction.Review.{rejected_row, decided_row, annotated_row}
use bank_fastapi.Transaction.Funds.{IsSolvent}

abbrev pub IsCredit : Option ℤ → Type 0
IsCredit none = Unit {0}
IsCredit (some m) = pos 0 ≤ℤ m

-- The amount that completing a transaction would credit is not negative.
abbrev pub HasCredit : Transaction → Type 0
HasCredit t = IsCredit (converted_amount t)

pub record Inv (db : Db) : Type 0 where
  pub solvent : IsSolvent db
  pub credits : All HasCredit db.transactions
  pub keys : Distinct transaction_key db.transactions

-- A change of a transaction that keeps its id and a credit that is not negative.
abbrev pub KeepsCredit : (Transaction → Transaction) → Type 0
KeepsCredit f = (t : Transaction) → ((f t).id ≡ t.id) × (HasCredit t → HasCredit (f t))

pub update_transaction-Inv :
    (id : ℕ) (f : Transaction → Transaction) (db : Db)
    → KeepsCredit f
    → Inv db
    → Inv (update_transaction id f db)
update_transaction-Inv id f db k v = record {
  solvent = v.solvent;
  credits = All-modify-All transaction_key HasCredit id f db.transactions v.credits (λ t. (k t).1);
  keys = Distinct-modify transaction_key id f db.transactions v.keys (λ t. (k t).0);
}

pub with_transaction-Inv :
    (t : Transaction) (db : Db)
    → HasCredit t
    → get_transaction t.id db ≡ none
    → Inv db
    → Inv (with_transaction t db)
with_transaction-Inv t db c fresh v = record {
  solvent = v.solvent;
  credits = All-append HasCredit db.transactions _ v.credits (c, tt);
  keys = Distinct-append transaction_key db.transactions t v.keys fresh;
}

-- Writing another key leaves the credit.
set_field-IsCredit :
    (k : String) (v : Value) (d : Fields)
    → str_eq k "converted_amount" ≡ false
    → IsCredit (decimal_of (get_field "converted_amount" d))
    → IsCredit (decimal_of (get_field "converted_amount" (set_field k v d)))
set_field-IsCredit k v d h c =
    let same : get_field "converted_amount" (set_field k v d) ≡ get_field "converted_amount" d =
      rw (get_field-set_field k "converted_amount" v d, h) in
    subst (λ o. IsCredit (decimal_of o)) (sym same) c

pub failed_row-KeepsCredit :
    (ctx : Context) (reason : FailureReason) (details : Fields) (message : String)
    → KeepsCredit (failed_row ctx reason details message)
failed_row-KeepsCredit ctx reason details message t =
    (refl, set_field-IsCredit "failure_details" _ (or_empty t.transaction_metadata) refl)

pub rejected_row-KeepsCredit :
    (ctx : Context) (reason : String) → KeepsCredit (rejected_row ctx reason)
rejected_row-KeepsCredit ctx reason t =
    let d = or_empty t.transaction_metadata in
    let reasoned = set_field "failure_reason" (Value.text reason) d in
    (
      refl,
      λ h.
          set_field-IsCredit "failed_at" (Value.time ctx.now) reasoned refl
            (set_field-IsCredit "failure_reason" (Value.text reason) d refl h),
    )

pub completed_row-KeepsCredit : (ctx : Context) → KeepsCredit (completed_row ctx)
completed_row-KeepsCredit ctx t = (refl, λ h. h)

pub flagged_row-KeepsCredit : KeepsCredit flagged_row
flagged_row-KeepsCredit t = (refl, λ h. h)

pub settled_row-KeepsCredit :
    (ctx : Context) (before after : ℤ) → KeepsCredit (settled_row ctx before after)
settled_row-KeepsCredit ctx before after t = (refl, λ h. h)

pub decided_row-KeepsCredit : (is_fraud : Bool) → KeepsCredit (decided_row is_fraud)
decided_row-KeepsCredit true t = (refl, λ h. h)
decided_row-KeepsCredit false t = (refl, λ h. h)

assess_metadata-IsCredit :
    (ctx : Context) (score : ℕ) (md : Option Fields)
    → IsCredit (decimal_of (get_field "converted_amount" (or_empty md)))
    → IsCredit (decimal_of (get_field "converted_amount" (or_empty (assess_metadata ctx score md))))
assess_metadata-IsCredit ctx score none h = tt
assess_metadata-IsCredit ctx score (some d) h = elim (Bool-cases ctx.tracks_mutation) [
  | inl tracked ↦ rw tracked (set_field-IsCredit "risk_assessment" _ d refl h)
  | inr dropped ↦ rw dropped h
]

pub assessed_row-KeepsCredit : (ctx : Context) (score : ℕ) → KeepsCredit (assessed_row ctx score)
assessed_row-KeepsCredit ctx score t =
    (refl, assess_metadata-IsCredit ctx score t.transaction_metadata)

annotated-IsCredit :
    (ctx : Context) (note : Value) (md : Option Fields)
    → IsCredit (decimal_of (get_field "converted_amount" (or_empty md)))
    → IsCredit (
        decimal_of (
          get_field "converted_amount"
            (or_empty (mutate_in_place ctx md (set_field "fraud_review" note (or_empty md))))))
annotated-IsCredit ctx note none h = tt
annotated-IsCredit ctx note (some end) h = tt
annotated-IsCredit ctx note (some (field k v d)) h = elim (Bool-cases ctx.tracks_mutation) [
  | inl tracked ↦ rw tracked (set_field-IsCredit "fraud_review" note (field k v d) refl h)
  | inr dropped ↦ rw dropped h
]

pub annotated_row-KeepsCredit :
    (ctx : Context) (note : Value) → KeepsCredit (annotated_row ctx note)
annotated_row-KeepsCredit ctx note t = (refl, annotated-IsCredit ctx note t.transaction_metadata)

-- The accounts change and stay solvent.
pub accounts-Inv :
    (db db' : Db) → IsSolvent db' → db'.transactions ≡ db.transactions → Inv db → Inv db'
accounts-Inv db db' h e v = record { solvent = h; credits = rw e v.credits; keys = rw e v.keys }
