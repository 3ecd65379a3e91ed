-- ===== src/System.antt =====
-- The three services together: the requests of riders, customers and admins, in any order.
mod Requests
mod Writes
mod ByCustomer
mod ByAdmin
mod ByPayment
mod BySearch
pub mod Manned
unfoldable pub use Requests.*
