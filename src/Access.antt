-- ===== src/Access.antt =====
-- Who may call what: daemon/access_policy.hpp and common/mnc/system/audit.hpp.
pub mod Policy
pub mod Request
pub mod Audit
