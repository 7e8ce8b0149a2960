-- ===== src/Domain.antt =====
-- The rows of the database and the errors of the services (internal/domain), the store that holds
-- the rows, and the monad in which the services run.
pub mod Market
pub mod Ledger
pub mod Subscription
pub mod Access
pub mod Database
pub mod Invariants
pub use Market.*
pub use Ledger.*
pub use Subscription.*
pub use Access.*
pub use Database.*
pub use Invariants.*
