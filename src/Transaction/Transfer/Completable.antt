-- ===== src/Transaction/Transfer/Completable.antt =====
-- A transfer that is initiated can be completed.
use Prim.Native.String
use bank_fastapi.Prelude.{
  ◌||◌, ℕ, ◌+◌, ◌≡◌, refl, ◌∙◌, inl, inr, Bool, true, false, none, some, List, [], ◌∷◌, ◌++◌,
  String, str_eq, eq_iff, arith, Bool-cases, ltb, ◌==◌, if◌then◌else◌,
}
use bank_fastapi.Prelude.Int.{pos}
use bank_fastapi.Prelude.Rows.{
  any_row, find-modify_self, Distinct, first, find, modify, find-modify,
}
use bank_fastapi.Models.{User, Transaction}
use bank_fastapi.Models.Metadata.{is_blank}
use bank_fastapi.Core.{
  Db, Context, ok, get_account, get_user, account_key, user_key, transaction_key, update_user,
  update_transaction,
}
use bank_fastapi.Transaction.Deposit.{add_transaction-free, is_taken, with_transaction}
use bank_fastapi.Transaction.Fraud.{
  score_row, handle_flagged_transaction, assessed_row, needs_review_at, analyze_transaction,
}
use bank_fastapi.Transaction.Transfer.Plan.{Plan, plan_transfer, issue_otp, is_empty}
use bank_fastapi.Transaction.Transfer.Initiated.{not_taken-missing}
use bank_fastapi.Transaction.Transfer.Initiate.{initiate_transfer, planned_row, score_transfer}
use bank_fastapi.Transaction.Transfer.Complete.{
  Parties, find_parties, complete_transfer, pending_with, converted_amount,
}
use bank_fastapi.Transaction.Transfer.Parties.{find_parties-all_found}
use bank_fastapi.Transaction.Transfer.Progress.{
  IsPlan, passes, both_fit, complete_passes, plan_transfer-IsPlan,
}
use bank_fastapi.Transaction.Transfer.Outcome.{transferred}

-- The tables and the transaction after an initiation that returns.
abbrev pub initiated_row : Context → ℕ → ℕ → String → Plan → Transaction
initiated_row ctx score amount description p =
    assessed_row ctx score (planned_row ctx amount description p)

abbrev pub initiated : Context → ℕ → ℕ → String → Plan → Db → Db
initiated ctx score amount description p db =
    let t = planned_row ctx amount description p in
    update_user p.sender.id (issue_otp ctx) (
      update_transaction t.id (assessed_row ctx score) (record (with_transaction t db) {
        risk_scores = db.risk_scores ++ score_row ctx t.id score ∷ [];
      }))

initiate_passes :
    (ctx : Context) (sender_id account_id : ℕ) (number : String) (amount : ℕ)
    (description answer : String) (db : Db) (p : Plan) (score : ℕ)
    → is_taken ctx.new_id (String.◌++◌ "TRF" ctx.hex) db ≡ false
    → plan_transfer ctx sender_id account_id number amount answer db ≡ ok p
    → ctx.predict (planned_row ctx amount description p) ≡ some score
    → needs_review_at score ≡ false
    → initiate_transfer ctx sender_id account_id number amount description answer db
      ≡ (ok ctx.new_id, initiated ctx score amount description p db)
unfolding initiate_transfer score_transfer analyze_transaction handle_flagged_transaction
initiate_passes ctx sender_id account_id number amount description answer db p score free h e
      clean =
    let t = planned_row ctx amount description p in
    rw (h, initiate_transfer)
      (add_transaction-free t (score_transfer ctx t p.sender) db free ∙ ground arith)

not_taken-pending :
    (id : ℕ) (reference : String) (rows : List Transaction)
    → any_row (λ (r : Transaction). (r.id == id) || str_eq r.reference reference) rows ≡ false
    → first (pending_with reference) rows ≡ none
not_taken-pending id reference [] free = refl
not_taken-pending id reference (r ∷ rows) free = ground (arith, not_taken-pending id reference rows)

added-first :
    (f : Transaction → Transaction) (q : Transaction → Bool) (t : Transaction)
    (rows : List Transaction)
    → find transaction_key t.id rows ≡ none
    → first q rows ≡ none
    → q (f t) ≡ true
    → first q (modify transaction_key t.id f (rows ++ t ∷ [])) ≡ some (f t)
added-first f q t [] fresh unused h = ground arith
added-first f q t (r ∷ rows) fresh unused h = ground (arith, added-first f q t rows)

updated-user :
    (k j : ℕ) (ctx : Context) (db : Db) (u : User)
    → get_user k db ≡ some u
    → get_user k (update_user j (issue_otp ctx) db) ≡ some (if j == k then issue_otp ctx u else u)
updated-user k j ctx db u e =
    ground (arith, find-modify user_key k j (issue_otp ctx) db.users (λ r. refl))

-- The rows that the completion reads: the accounts as they were, the sender with the new OTP.
abbrev pub initiated_parties : Context → Plan → Parties
initiated_parties ctx p = record {
  sender_account = p.sender_account;
  receiver_account = p.receiver_account;
  sender = issue_otp ctx p.sender;
  receiver = if p.sender.id == p.receiver.id then issue_otp ctx p.receiver else p.receiver;
}

initiated-parties :
    (ctx : Context) (score amount : ℕ) (description : String) (p : Plan) (db : Db)
    → IsPlan db amount p
    → find_parties
        (initiated_row ctx score amount description p)
        (initiated ctx score amount description p db)
      ≡ some (initiated_parties ctx p)
initiated-parties ctx score amount description p db v =
    let last = initiated ctx score amount description p db in
    let sent : get_user p.sender.id last ≡ some (issue_otp ctx p.sender) =
      find-modify_self user_key p.sender.id (issue_otp ctx) db.users p.sender v.sender_user refl in
    let received : get_user p.receiver.id last
        ≡ some (if p.sender.id == p.receiver.id then issue_otp ctx p.receiver else p.receiver) =
      updated-user p.receiver.id p.sender.id ctx db p.receiver v.receiver_user in
    let from_row : get_account p.sender_account.id last ≡ some p.sender_account = v.sender_row in
    let to_row : get_account p.receiver_account.id last ≡ some p.receiver_account =
      v.receiver_row in
    find_parties-all_found (initiated_row ctx score amount description p) last
    ∙ rw (from_row, to_row, sent, received) refl

initiated-converted :
    (ctx : Context) (score amount : ℕ) (description : String) (p : Plan)
    → (converted_amount (initiated_row ctx score amount description p)
        ≡ some (pos p.conversion.converted_amount))
      × (is_blank (initiated_row ctx score amount description p).transaction_metadata ≡ false)
initiated-converted ctx score amount description p = elim (Bool-cases ctx.tracks_mutation) [
  | inl on ↦ (rw on refl, rw on refl)
  | inr off ↦ (rw off refl, rw off refl)
]

-- A transfer whose checks pass, whose score needs no review, and whose id and reference no
-- transaction has is initiated; and where the ids of the accounts are distinct, its
-- completion returns at the next request with the OTP that was issued, if that is not empty and in
-- time and both balances fit their columns: the amount has left the sender's account and the
-- converted amount has reached the receiver's.
pub initiate_transfer-completes :
    (ctx later : Context) (sender_id account_id : ℕ) (number : String) (amount : ℕ)
    (description answer : String) (db : Db) (p : Plan) (score : ℕ)
    → Distinct account_key db.accounts
    → is_taken ctx.new_id (String.◌++◌ "TRF" ctx.hex) db ≡ false
    → plan_transfer ctx sender_id account_id number amount answer db ≡ ok p
    → ctx.predict (planned_row ctx amount description p) ≡ some score
    → needs_review_at score ≡ false
    → is_empty ctx.otp ≡ false
    → ltb (ctx.now + ctx.otp_expiration) later.now ≡ false
    → both_fit later
        (initiated_row ctx score amount description p)
        (initiated_parties ctx p)
        (pos p.conversion.converted_amount)
        (initiated ctx score amount description p db)
      ≡ true
    → let t = initiated_row ctx score amount description p in
      let waiting = initiated ctx score amount description p db in
      (initiate_transfer ctx sender_id account_id number amount description answer db
        ≡ (ok ctx.new_id, waiting))
      × (complete_transfer later (String.◌++◌ "TRF" ctx.hex) ctx.otp waiting ≡ (
        ok ctx.new_id,
        transferred later t (initiated_parties ctx p) (pos p.conversion.converted_amount) waiting,
      ))
initiate_transfer-completes ctx later sender_id account_id number amount description answer db p
      score d free h e clean otp soon fits =
    let t = initiated_row ctx score amount description p in
    let reference = String.◌++◌ "TRF" ctx.hex in
    let waiting = initiated ctx score amount description p db in
    let v = plan_transfer-IsPlan ctx sender_id account_id number amount answer db p d h in
    let same : str_eq reference reference ≡ true = ground (arith, eq_iff reference reference) in
    let same_otp : str_eq ctx.otp ctx.otp ≡ true = ground (arith, eq_iff ctx.otp ctx.otp) in
    let row : first (pending_with reference) waiting.transactions ≡ some t =
      added-first (assessed_row ctx score) (pending_with reference)
        (planned_row ctx amount description p) db.transactions
        (not_taken-missing ctx.new_id reference db.transactions free)
        (not_taken-pending ctx.new_id reference db.transactions free) (ground (arith, same)) in
    let converted = initiated-converted ctx score amount description p in
    let go : passes later ctx.otp t (initiated_parties ctx p) ≡ true =
      ground (arith, same_otp, v.sender_active, v.receiver_active, v.covers, converted.1) in
    (
      initiate_passes ctx sender_id account_id number amount description answer db p score free h e
          clean,
      complete_passes later reference ctx.otp t (initiated_parties ctx p)
          (pos p.conversion.converted_amount) waiting row
          (initiated-parties ctx score amount description p db v) go converted.0 fits,
    )
