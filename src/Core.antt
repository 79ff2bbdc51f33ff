-- ===== src/Core.antt =====
-- What every service stands on: the exceptions of core/exceptions.py, the database session of
-- core/db.py as a state and exception monad, and the values that a call takes from outside.
mod Exceptions
mod Database
mod Outside
pub mod Ends
pub mod Results
pub mod Startup
pub use Exceptions.*
pub use Database.*
pub use Outside.*
