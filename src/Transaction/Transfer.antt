-- ===== src/Transaction/Transfer.antt =====
-- transaction/service.py: the two steps of a transfer.
pub mod Plan
pub mod Initiate
pub mod Complete
pub mod Outcome
pub mod Parties
pub mod Initiated
pub mod Progress
pub mod Completable
