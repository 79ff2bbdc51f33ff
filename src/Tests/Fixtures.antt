-- ===== src/Tests/Fixtures.antt =====
-- A small bank: Ann (1) and Bob (2) with an account each, an executive (3), and three transactions.
use bank_fastapi.Prelude.{ℕ, Bool, true, false, Option, none, some, [], ◌∷◌, String}
use bank_fastapi.Prelude.Int.{ℤ, pos}
use bank_fastapi.Models.{
  User, BankAccount, Transaction, TransactionType, TransactionCategory, TransactionStatus,
  AiReviewStatus, AccountStatus, Currency, UserStatus, Role, RiskScore, VirtualCard, CardStatus,
  NextOfKin, Profile,
}
use bank_fastapi.Models.Metadata.{Value, end, field}
use bank_fastapi.Core.{Db, Context}

abbrev pub ctx : Context
ctx = record {
  now = 1000;
  new_id = 77;
  hex = "CAFE0001";
  otp = "123456";
  otp_expiration = 300;
  verify = λ _ _. true;
  predict = λ _. some 10;
  fits = λ _. true;
  populates_existing = true;
  tracks_mutation = true;
  reloads_expired = true;
}

-- A SELECT ... FOR UPDATE leaves loaded rows as they are.
abbrev pub ctx_stale : Context
ctx_stale = record ctx { populates_existing = false }

abbrev pub user : ℕ → String → Role → User
user id name role = record {
  id = id;
  username = name;
  email = name;
  first_name = name;
  middle_name = none;
  last_name = name;
  full_name = name;
  id_no = id;
  is_active = true;
  account_status = UserStatus.active;
  role = role;
  security_answer = "hash";
  hashed_password = "hash";
  failed_login_attempts = 0;
  last_failed_login = none;
  otp = "123456";
  otp_expiry_time = some 2000;
  created_at = id;
}

abbrev pub ann : User
ann = user 1 "ann" Role.customer

abbrev pub bob : User
bob = user 2 "bob" Role.customer

abbrev pub eve : User
eve = user 3 "eve" Role.account_executive

abbrev pub account : ℕ → ℕ → String → ℤ → BankAccount
account id user_id number balance = record {
  id = id;
  user_id = user_id;
  account_number = some number;
  account_name = "current";
  currency = Currency.usd;
  account_status = AccountStatus.active;
  balance = balance;
  is_primary = true;
  kyc_submitted = true;
  kyc_verified = true;
  kyc_verified_by = none;
  kyc_verified_on = none;
}

abbrev pub ann_account : BankAccount
ann_account = account 10 1 "A10" (pos 10000)

abbrev pub bob_account : BankAccount
bob_account = account 20 2 "B20" (pos 5000)

abbrev pub transaction :
    ℕ → TransactionType → TransactionStatus → Option AiReviewStatus → Transaction
transaction id type status review = record {
  id = id;
  amount = 1000;
  description = "rent";
  reference = "TRF1";
  transaction_type = type;
  transaction_category = TransactionCategory.debit;
  status = status;
  balance_before = pos 10000;
  balance_after = pos 9000;
  sender_account_id = some 10;
  receiver_account_id = some 20;
  sender_id = some 1;
  receiver_id = some 2;
  processed_by = none;
  created_at = id;
  completed_at = none;
  transaction_metadata = some (field "converted_amount" (Value.amount 1000) end);
  failed_reason = none;
  ai_review_status = review;
}

abbrev pub pending : Transaction
pending = transaction 100 TransactionType.transfer TransactionStatus.pending none

abbrev pub flagged : Transaction
flagged =
    transaction 101 TransactionType.transfer TransactionStatus.failed (some AiReviewStatus.flagged)

abbrev pub score : RiskScore
score = record {
  id = 500;
  transaction_id = 101;
  risk_score = 90;
  reviewed_by = none;
  is_confirmed_fraud = none;
}

abbrev pub card : ℕ → CardStatus → ℤ → VirtualCard
card id status available = record {
  id = id;
  bank_account_id = 10;
  card_number = some "4000";
  currency = Currency.usd;
  card_status = status;
  is_active = true;
  available_balance = available;
  total_topped_up = available;
  last_top_up_date = none;
  block_reason = none;
  block_reason_description = none;
  blocked_by = none;
  blocked_at = none;
  cvv_hash = none;
  expiry_date = none;
  physical_card_requested_at = none;
  card_metadata = none;
}

abbrev pub kin : ℕ → ℕ → Bool → NextOfKin
kin id user_id is_primary = record {
  id = id;
  user_id = user_id;
  full_name = "kin";
  is_primary = is_primary;
}

abbrev pub profile : ℕ → ℕ → Profile
profile id user_id = record {
  id = id;
  user_id = user_id;
  columns = field "city" (Value.text "Lagos") (field "id_photo_url" (Value.text "url") end);
}

abbrev pub bank : Db
bank = record {
  users = ann ∷ bob ∷ eve ∷ [];
  accounts = ann_account ∷ bob_account ∷ [];
  transactions = pending ∷ flagged ∷ [];
  risk_scores = score ∷ [];
  cards = card 30 CardStatus.active (pos 0) ∷ card 31 CardStatus.blocked (pos 5) ∷ [];
  next_of_kins = kin 40 1 true ∷ kin 41 1 false ∷ [];
  profiles = profile 60 1 ∷ profile 61 2 ∷ [];
  idempotency_keys = [];
}
