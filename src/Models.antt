-- ===== src/Models.antt =====
-- The data of the bank: the enumerations of the `enums.py` files, JSON metadata, and the rows of
-- the `models.py` files.
mod Enums
pub mod Metadata
mod Records
pub use Enums.*
pub use Records.*
