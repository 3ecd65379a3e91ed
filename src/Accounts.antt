-- ===== src/Accounts.antt =====
-- apps/user-api/src/auth: registration, confirmation codes, signing in and out.
mod Contact
mod Tokens
mod SignUp
mod SignIn
mod Request
unfoldable pub use Contact.*
unfoldable pub use Tokens.*
unfoldable pub use SignUp.*
unfoldable pub use SignIn.*
unfoldable pub use Request.*
pub mod Phones
pub mod Sessions
pub mod Codes
mod Writes
mod Served
pub mod Registered
