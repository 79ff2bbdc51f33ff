-- ===== src/Transaction.antt =====
-- Money movement: backend/app/transaction.
pub mod Failure
pub mod Locks
pub mod Deposit
pub mod Fraud
pub mod Transfer
pub mod Withdrawal
pub mod Review
pub mod Idempotency
pub mod Funds
pub mod Invariant
pub mod Preservation
pub mod Schedule
pub mod Accounting
pub mod Decisions
pub mod History
pub mod Statement
pub mod Ledger
