-- ===== src/Kin.antt =====
-- Next of kin: backend/app/next_of_kin.
pub mod Service
pub mod Limits
