-- ===== src/Rider.antt =====
-- apps/delivery-api/src/delivery/delivery.service.ts: what a rider does with deliveries.
mod Commission
mod Accept
mod Progress
mod Pins
pub mod Ownership
pub mod Undo
pub mod Race
pub mod Gaps
pub mod Counters
pub mod Handover
pub mod Workflow
unfoldable pub use Commission.*
unfoldable pub use Accept.*
unfoldable pub use Progress.*
unfoldable pub use Pins.*
