-- ===== src/Payment.antt =====
-- apps/user-api/src/payment: payments by wallet and by the payment provider, and refunds.
mod Wallets
mod Initiate
mod Webhook
mod Listener
mod Request
pub mod Books
pub mod Outcomes
unfoldable pub use Wallets.*
unfoldable pub use Initiate.*
unfoldable pub use Webhook.*
unfoldable pub use Listener.*
unfoldable pub use Request.*
