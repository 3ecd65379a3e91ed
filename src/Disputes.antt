-- ===== src/Disputes.antt =====
-- apps/user-api/src/dispute and apps/admin-api/src/dispute: complaints about deliveries.
mod Filing
mod Support
mod Requests
mod Writes
pub mod Filed
pub mod History
pub mod Access
unfoldable pub use Filing.*
unfoldable pub use Support.*
unfoldable pub use Requests.*
