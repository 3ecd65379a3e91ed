-- ===== src/Earnings/Ledger.antt =====
-- The ledger of the riders' earnings and the operations on it.
pub mod Sums
pub mod Hold
pub mod Balance
pub mod Reviews
pub mod Credits
pub mod Withdrawals
