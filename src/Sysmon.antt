-- ===== src/Sysmon.antt =====
-- The reader of the system monitor of a Xilinx device: sysmon.hpp and sysmon.cpp of
-- meta-xilinx-addon/recipes-support/mnc-xilinx-sysmon/files/source/common/mnc/xilinx/sysmon.
pub mod World
pub mod Channels
pub mod Sample
pub mod Snapshot
