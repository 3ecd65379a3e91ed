-- ===== src/Admin.antt =====
-- apps/admin-api/src/delivery: what an admin does with a delivery.
mod Assign
mod Override
mod Refund
pub mod Counts
pub mod Checks
pub mod Gaps
unfoldable pub use Assign.*
unfoldable pub use Override.*
unfoldable pub use Refund.*
