-- ===== src/Card.antt =====
-- Virtual cards: backend/app/virtual_card.
pub mod Number
pub mod Service
pub mod TopUp
pub mod Funds
pub mod States
pub mod Luhn
pub mod Expiry
