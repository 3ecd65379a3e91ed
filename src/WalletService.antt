-- ===== src/WalletService.antt =====
-- libs/common/src/modules/wallet: wallets with two balances and a lock.
mod Transfer
mod Requests
mod Verify
pub mod Sound
pub mod Outcomes
pub mod Answers
unfoldable pub use Transfer.*
unfoldable pub use Verify.*
unfoldable pub use Requests.*
