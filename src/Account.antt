-- ===== src/Account.antt =====
-- Bank accounts: backend/app/bank_account.
pub mod Number
pub mod Conversion
pub mod Service
pub mod Limits
