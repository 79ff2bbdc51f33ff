-- ===== src/Transaction/Preservation.antt =====
-- Every operation on the money tables keeps their invariant, however it ends.
pub mod Deposits
pub mod Transfers
pub mod Completions
pub mod Withdrawals
pub mod Reviews
