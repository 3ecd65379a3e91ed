-- ===== src/Matching.antt =====
-- apps/user-api/src/delivery/rider-matching.service.ts and the Redis state of the matching: how a
-- quick delivery finds its rider.
mod Store
mod Search
mod Dispatch
pub mod Fairness
pub mod Turns
pub mod Endings
unfoldable pub use Store.*
unfoldable pub use Search.*
unfoldable pub use Dispatch.*
