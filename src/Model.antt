-- ===== src/Model.antt =====
-- The data that the three services share: the enums of libs/common/src/enums, the documents of
-- libs/database/src/schemas, and the state and errors of a request handler.
mod Status
mod Documents
mod Payments
mod Queues
mod Disputes
mod Accounts
mod Effects
pub use Status.*
pub use Documents.*
pub use Payments.*
pub use Queues.*
pub use Disputes.*
pub use Accounts.*
pub use Effects.*
