-- ===== src/Platform.antt =====
-- `Native`, the platform of daemon/backend.cpp, over the history of what it asks the system for.
pub mod System
pub mod Rules
pub mod Unit
pub mod Clock
pub mod Apply
