-- ===== src/Earnings.antt =====
-- apps/delivery-api/src/earnings/earnings.service.ts and
-- apps/admin-api/src/withdrawals/withdrawals.service.ts: what riders earn and withdraw.
mod Payout
mod Credit
mod Withdraw
mod Review
pub mod Ledger
unfoldable pub use Payout.*
unfoldable pub use Credit.*
unfoldable pub use Withdraw.*
unfoldable pub use Review.*
