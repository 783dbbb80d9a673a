-- ===== src/Clock.antt =====
-- The clock sources of the device: PTP interfaces, the units of each source, and its runtime files.
pub mod Ptp
pub mod Units
