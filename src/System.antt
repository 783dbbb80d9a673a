-- ===== src/System.antt =====
-- The data types of `common/mnc/system/system.hpp`, and results that carry an error.
-- An exception of the source is an `err`; a message is kept as the source writes it.
mod Error
mod Config
mod Status
pub mod Trace
pub use Error.*
pub use Config.*
pub use Status.*
