-- ===== src/Payment/Books.antt =====
-- The books of the wallets: their balances and their transactions.
pub mod Balance
pub mod Requests
pub mod Invariant
