-- ===== src/Store.antt =====
-- The database of apps/api, in the tables that the modelled services use
-- (apps/api/prisma/schema.prisma), what they send out, and the monad of a request handler.
pub mod Enums
pub mod Keys
pub mod Rows
pub mod Monad
pub use Rows.*
pub use Monad.*
