-- ===== src/Pricing.antt =====
-- libs/common/src/utils/delivery-pricing.util.ts: the price of a delivery.
mod Compute
pub mod Bounds
unfoldable pub use Compute.*
