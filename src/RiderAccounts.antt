-- ===== src/RiderAccounts.antt =====
-- apps/delivery-api/src/auth and apps/admin-api/src/rider-management: the accounts of riders.
mod Lookup
mod SignIn
mod Recovery
mod Manage
unfoldable pub use Lookup.*
unfoldable pub use SignIn.*
unfoldable pub use Recovery.*
unfoldable pub use Manage.*
mod Found
pub mod Sessions
pub mod Entry
pub mod Numbers
pub mod Devices
pub mod Suspension
