-- ===== src/Transaction/Accounting.antt =====
-- What the operations do to the sum of the balances.
pub mod Deposits
pub mod Transfers
pub mod Withdrawals
pub mod Reviews
pub mod Races
pub mod Repeats
