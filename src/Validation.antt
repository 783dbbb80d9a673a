-- ===== src/Validation.antt =====
-- common/mnc/system/validation.cpp: what a configuration must satisfy before it reaches the system.
pub mod Number
pub mod Ipv4
pub mod Ntp
pub mod Network
pub mod Preferences
