-- ===== src/Backend.antt =====
-- `Backend` of daemon/backend.hpp and daemon/storage.cpp: the system manager's transactions.
-- The proofs are in the modules below those of the operations.
pub mod Profile
pub mod State
pub mod Host
pub mod Monad
pub mod Journal
pub mod Observe
pub mod Settle
pub mod Frame
pub mod Tick
pub mod Apply
pub mod Network
pub mod Jobs
pub mod Boot
pub mod Failed
pub mod Load
pub mod Render
pub mod Calls
