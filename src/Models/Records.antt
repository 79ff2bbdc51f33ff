-- ===== src/Models/Records.antt =====
-- The rows of the tables, with the columns that the services read or write, those of the base
-- schemas in the schema.py files included. Ids are UUIDs and
-- times are seconds; both are numbers, as they are only compared and shifted. Money is in cents:
-- an amount is a number (the request schemas demand `ge=0` and two decimal places), a balance is
-- signed.
use bank_fastapi.Prelude.{ℕ, Bool, Option, String}
use bank_fastapi.Prelude.Int.{ℤ}
use bank_fastapi.Models.Enums.{
  AccountStatus, Currency, TransactionType, TransactionStatus, TransactionCategory, FailureReason,
  AiReviewStatus, CardStatus, BlockReason, UserStatus, Role,
}
use bank_fastapi.Models.Metadata.{Fields}

-- `full_name` is the computed property: the names in title case.
pub record User : Type 0 where
  pub id : ℕ
  pub username : String
  pub email : String
  pub first_name : String
  pub middle_name : Option String
  pub last_name : String
  pub full_name : String
  pub id_no : ℕ
  pub is_active : Bool
  pub account_status : UserStatus
  pub role : Role
  pub security_answer : String
  pub hashed_password : String
  pub failed_login_attempts : ℕ
  pub last_failed_login : Option ℕ
  pub otp : String
  pub otp_expiry_time : Option ℕ
  pub created_at : ℕ

pub record BankAccount : Type 0 where
  pub id : ℕ
  pub user_id : ℕ
  pub account_number : Option String
  pub account_name : String
  pub currency : Currency
  pub account_status : AccountStatus
  pub balance : ℤ
  pub is_primary : Bool
  pub kyc_submitted : Bool
  pub kyc_verified : Bool
  pub kyc_verified_by : Option ℕ
  pub kyc_verified_on : Option ℕ

pub record Transaction : Type 0 where
  pub id : ℕ
  pub amount : ℕ
  pub description : String
  pub reference : String
  pub transaction_type : TransactionType
  pub transaction_category : TransactionCategory
  pub status : TransactionStatus
  pub balance_before : ℤ
  pub balance_after : ℤ
  pub sender_account_id : Option ℕ
  pub receiver_account_id : Option ℕ
  pub sender_id : Option ℕ
  pub receiver_id : Option ℕ
  pub processed_by : Option ℕ
  pub created_at : ℕ
  pub completed_at : Option ℕ
  pub transaction_metadata : Option Fields
  pub failed_reason : Option FailureReason
  pub ai_review_status : Option AiReviewStatus

-- `risk_score` is in hundredths.
pub record RiskScore : Type 0 where
  pub id : ℕ
  pub transaction_id : ℕ
  pub risk_score : ℕ
  pub reviewed_by : Option ℕ
  pub is_confirmed_fraud : Option Bool

pub record VirtualCard : Type 0 where
  pub id : ℕ
  pub bank_account_id : ℕ
  pub card_number : Option String
  pub currency : Currency
  pub card_status : CardStatus
  pub is_active : Bool
  pub available_balance : ℤ
  pub total_topped_up : ℤ
  pub last_top_up_date : Option ℕ
  pub block_reason : Option BlockReason
  pub block_reason_description : Option String
  pub blocked_by : Option ℕ
  pub blocked_at : Option ℕ
  pub cvv_hash : Option String
  pub expiry_date : Option ℕ
  pub physical_card_requested_at : Option ℕ
  pub card_metadata : Option Fields

pub record NextOfKin : Type 0 where
  pub id : ℕ
  pub user_id : ℕ
  pub full_name : String
  pub is_primary : Bool

-- The columns of `ProfileBaseSchema`, by their names.
pub record Profile : Type 0 where
  pub id : ℕ
  pub user_id : ℕ
  pub columns : Fields

pub record IdempotencyKey : Type 0 where
  pub key : String
  pub user_id : ℕ
  pub endpoint : String
  pub response_code : ℕ
  pub response_body : Fields
  pub expires_at : ℕ
