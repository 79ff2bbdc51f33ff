-- ===== src/Transaction/Transfer/Progress.antt =====
-- When a completion goes through, and what the plan of a transfer establishes.
use bank_fastapi.Prelude.{
  ℕ, ◌≡◌, refl, sym, ap, ◌∙◌, subst, inl, inr, Bool, true, false, ◌&&◌, ◌||◌, not, some, String,
  str_eq, arith, Option-cases, ◌==◌,
}
use bank_fastapi.Prelude.Int.{ℤ, pos, ltb_ℤ}
use bank_fastapi.Prelude.Rows.{Distinct, first, find-first, first-holds}
use bank_fastapi.Models.{User, BankAccount, Transaction, is_active}
use bank_fastapi.Models.Metadata.{is_blank}
use bank_fastapi.Core.{
  >>=-cases, ◌>>◌, Result-cases, Db, Context, ok, err, get_account, get_user, account_key,
}
use bank_fastapi.Transaction.Transfer.Plan.{
  convert, has_number, join_owner, Plan, plan_transfer, is_empty,
}
use bank_fastapi.Transaction.Transfer.Complete.{
  Parties, find_parties, complete_transfer, complete_pending, pending_with, converted_amount,
  row_fits, is_expired, check_transfer, apply_transfer, settle_transfer, move_balances,
}
use bank_fastapi.Transaction.Transfer.Outcome.{transferred}

-- What lets a completion through.
abbrev pub passes : Context → String → Transaction → Parties → Bool
passes ctx otp t p =
    not (is_empty p.sender.otp || not (str_eq p.sender.otp otp))
    && (not (is_expired ctx.now p.sender.otp_expiry_time)
        && (is_active p.sender_account.account_status
            && (is_active p.receiver_account.account_status
                && (not (ltb_ℤ p.sender_account.balance (pos t.amount))
                    && not (is_blank t.transaction_metadata)))))

abbrev pub both_fit : Context → Transaction → Parties → ℤ → Db → Bool
both_fit ctx t p m db =
    let moved = move_balances p.sender_account.id p.receiver_account.id t.amount m db in
    row_fits ctx p.sender_account.id moved && row_fits ctx p.receiver_account.id moved

pub check_passes :
    (ctx : Context) (otp : String) (t : Transaction) (p : Parties) (db : Db)
    → passes ctx otp t p ≡ true
    → check_transfer ctx otp t p db ≡ (ok tt, db)
unfolding check_transfer
check_passes ctx otp t p db h = ground arith

pub applied :
    (ctx : Context) (otp : String) (t : Transaction) (p : Parties) (m : ℤ) (db : Db)
    → passes ctx otp t p ≡ true
    → converted_amount t ≡ some m
    → both_fit ctx t p m db ≡ true
    → (check_transfer ctx otp t p >> apply_transfer ctx t p) db
      ≡ (ok t.id, transferred ctx t p m db)
unfolding apply_transfer settle_transfer
applied ctx otp t p m db h c fits =
    >>=-cases (λ x. x ≡ (ok t.id, transferred ctx t p m db)) (check_transfer ctx otp t p)
      (λ _. apply_transfer ctx t p) db
      (λ a db' e.
        let same : db ≡ db' = ap (λ x. x.1) (sym (check_passes ctx otp t p db h) ∙ e) in
        subst (λ d. apply_transfer ctx t p d ≡ (ok t.id, transferred ctx t p m db)) same
          (rw (apply_transfer, c, settle_transfer, fits) refl))
      (λ x db' e.
        let clash : ok tt ≡ err x = ap (λ y. y.0) (sym (check_passes ctx otp t p db h) ∙ e) in
        ground arith)

pub complete_passes :
    (ctx : Context) (reference otp : String) (t : Transaction) (p : Parties) (m : ℤ) (db : Db)
    → first (pending_with reference) db.transactions ≡ some t
    → find_parties t db ≡ some p
    → passes ctx otp t p ≡ true
    → converted_amount t ≡ some m
    → both_fit ctx t p m db ≡ true
    → complete_transfer ctx reference otp db ≡ (ok t.id, transferred ctx t p m db)
unfolding complete_transfer complete_pending
complete_passes ctx reference otp t p m db e found h c fits =
    rw (complete_transfer, e, complete_pending, found) (applied ctx otp t p m db h c fits)

-- What the checks of an initiation establish of the rows that they hand on.
pub record IsPlan (db : Db) (amount : ℕ) (p : Plan) : Type 0 where
  pub sender_row : get_account p.sender_account.id db ≡ some p.sender_account
  pub receiver_row : get_account p.receiver_account.id db ≡ some p.receiver_account
  pub sender_user : get_user p.sender.id db ≡ some p.sender
  pub receiver_user : get_user p.receiver.id db ≡ some p.receiver
  pub sender_active : is_active p.sender_account.account_status ≡ true
  pub receiver_active : is_active p.receiver_account.account_status ≡ true
  pub covers : ltb_ℤ p.sender_account.balance (pos amount) ≡ false

joined-rows :
    (q : BankAccount → Bool) (db : Db) (a : BankAccount) (u : User)
    → Distinct account_key db.accounts
    → join_owner q db ≡ some (a, u)
    → (get_account a.id db ≡ some a) × (get_user u.id db ≡ some u)
joined-rows q db a u d e = elim (Option-cases (first q db.accounts)) [
  | inl gone ↦ ground arith
  | inr (b, f) ↦ elim (Option-cases (get_user b.user_id db)) [
    | inl gone ↦ ground arith
    | inr (v, g) ↦
        let same : b ≡ a = ground arith in
        let same_user : v ≡ u = ground arith in
        let row = find-first account_key q db.accounts b d f in
        let id : v.id ≡ b.user_id =
          ground (arith, first-holds (λ (r : User). r.id == b.user_id) db.users v g) in
        let user : get_user v.id db ≡ some v = subst (λ k. get_user k db ≡ some v) (sym id) g in
        (
          subst (λ x. get_account x.id db ≡ some x) same row,
          subst (λ x. get_user x.id db ≡ some x) same_user user,
        )
  ]
]

pub plan_transfer-IsPlan :
    (ctx : Context) (sender_id account_id : ℕ) (number : String) (amount : ℕ) (answer : String)
    (db : Db) (p : Plan)
    → Distinct account_key db.accounts
    → plan_transfer ctx sender_id account_id number amount answer db ≡ ok p
    → IsPlan db amount p
unfolding plan_transfer
plan_transfer-IsPlan ctx sender_id account_id number amount answer db p d e =
    elim (Option-cases (join_owner (λ a. (a.id == account_id) && (a.user_id == sender_id)) db)) [
      | inl gone ↦ ground arith
      | inr ((a, u), f) ↦ elim (Option-cases (join_owner (has_number number) db)) [
        | inl gone ↦ ground arith
        | inr ((b, v), g) ↦
            let left =
              joined-rows (λ r. (r.id == account_id) && (r.user_id == sender_id)) db a u d f in
            let right = joined-rows (has_number number) db b v d g in
            elim (Result-cases (convert amount a.currency b.currency)) [
              | inl (x, c) ↦ ground arith
              | inr (conv, c) ↦
                  let planned : p ≡ record {
                    sender_account = a;
                    sender = u;
                    receiver_account = b;
                    receiver = v;
                    conversion = conv;
                  } =
                    ground arith in
                  rw planned (record {
                    sender_row = left.0;
                    receiver_row = right.0;
                    sender_user = left.1;
                    receiver_user = right.1;
                    sender_active = ground arith;
                    receiver_active = ground arith;
                    covers = ground arith;
                  })
            ]
      ]
    ]
