-- ===== src/Customer.antt =====
-- apps/user-api/src/delivery: what a customer does with a delivery.
mod Queries
mod Quoting
mod Create
mod Cancel
mod Pickup
mod Reschedule
mod CouponCheck
mod Request
pub mod Access
pub mod Refunds
pub mod Owed
pub mod Steps
pub mod Runs
pub mod Gaps
pub mod WithRiders
pub mod Orders
pub mod Best
unfoldable pub use Queries.*
unfoldable pub use Quoting.*
unfoldable pub use Create.*
unfoldable pub use Cancel.*
unfoldable pub use Pickup.*
unfoldable pub use Reschedule.*
unfoldable pub use CouponCheck.*
unfoldable pub use Request.*
