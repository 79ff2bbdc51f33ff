-- ===== src/Tests.antt =====
-- The theorems at concrete inputs, and runs of the operations.
mod Fixtures
mod Transfers
mod Money
mod Reviews
mod Keys
mod Numbers
mod Cards
mod Users
mod Histories
mod Ledgers
mod Limits
mod Accounts
mod Logins
mod Checks
mod Requests
