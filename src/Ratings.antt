-- ===== src/Ratings.antt =====
-- apps/user-api/src/rating: the ratings of riders.
mod Rate
mod Sums
pub mod Averages
unfoldable pub use Rate.*
