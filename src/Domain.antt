-- ===== src/Domain.antt =====
-- internal/domain: the events, points, results and errors that the services exchange.
mod Errors
mod Values
mod Types
pub use Errors.*
pub use Values.*
unfoldable pub use Types.*
