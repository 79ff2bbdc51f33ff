-- ===== src/Auth.antt =====
-- Users: registration, logins, tokens and password resets, backend/app/auth.
pub mod Service
pub mod Lockout
pub mod Tokens
pub mod Access
pub mod Registration
pub mod Onboarding
pub mod Sessions
pub mod Resets
