-- ===== src/Logging.antt =====
-- common/mnc/logging: records for the system journal, and queries over what was recorded.
pub mod Priority
pub mod Fields
pub mod UserLog
pub mod Journal
