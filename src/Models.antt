-- ===== src/Models.antt =====
-- The tables of app/database/models.py that the modelled services read and write, one record for
-- each mapped class, and the database as a record of tables.
-- A nullable column is an `Option`; a `Numeric(p, s)` column is the integer scaled by 10 ^ s.
pub mod Settings
pub mod Wallet
pub mod Orders
pub mod Billing
pub mod Chat
pub mod Shops
pub mod Platform
pub mod Database
pub mod Selected
pub use Settings.*
pub use Wallet.*
pub use Orders.*
pub use Billing.*
pub use Chat.*
pub use Shops.*
pub use Platform.*
pub use Database.*
pub use Selected.*
