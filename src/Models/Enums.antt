-- ===== src/Models/Enums.antt =====
-- The enumerations of backend/app/{bank_account,transaction,virtual_card}/enums.py,
-- core/ai/enums.py and auth/schema.py, with the comparisons that the services make.
use bank_fastapi.Prelude.{Bool, true, false}

pub data AccountStatus : Type 0 where
  active inactive pending closed frozen : AccountStatus

-- `AccountCurrencyEnum` and `VirtualCardCurrencyEnum` have the same members, and both compare by
-- their text, so one type stands for both.
pub data Currency : Type 0 where
  usd eur gbp kes : Currency

pub data TransactionType : Type 0 where
  deposit withdrawal transfer reversal : TransactionType
  fee_charged loan_disbursement loan_repayment interest_credited : TransactionType

pub data TransactionStatus : Type 0 where
  pending completed failed reversed cancelled : TransactionStatus

pub data TransactionCategory : Type 0 where
  credit debit : TransactionCategory

pub data FailureReason : Type 0 where
  insufficient_balance invalid_otp otp_expired currency_conversion_failed : FailureReason
  account_inactive system_error invalid_amount invalid_account : FailureReason
  self_transfer suspicious_activity : FailureReason

pub data AiReviewStatus : Type 0 where
  pending flagged cleared confirmed_fraud : AiReviewStatus

pub data CardStatus : Type 0 where
  active inactive pending blocked expired : CardStatus

pub data BlockReason : Type 0 where
  lost stolen suspicious_activity customer_request : BlockReason

-- `AccountStatusSchema`
pub data UserStatus : Type 0 where
  active inactive locked pending : UserStatus

-- `RoleChoicesSchema`
pub data Role : Type 0 where
  customer account_executive branch_manager admin super_admin teller : Role

-- `status == AccountStatusEnum.Active`, and so on.
abbrev pub is_active : AccountStatus → Bool
is_active AccountStatus.active = true
is_active _ = false

abbrev pub is_pending : TransactionStatus → Bool
is_pending TransactionStatus.pending = true
is_pending _ = false

abbrev pub is_card_active : CardStatus → Bool
is_card_active CardStatus.active = true
is_card_active _ = false

abbrev pub is_card_blocked : CardStatus → Bool
is_card_blocked CardStatus.blocked = true
is_card_blocked _ = false

abbrev pub is_executive : Role → Bool
is_executive Role.account_executive = true
is_executive _ = false

abbrev pub same_currency : Currency → Currency → Bool
same_currency Currency.usd Currency.usd = true
same_currency Currency.eur Currency.eur = true
same_currency Currency.gbp Currency.gbp = true
same_currency Currency.kes Currency.kes = true
same_currency _ _ = false
