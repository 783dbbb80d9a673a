-- ===== src/Tests.antt =====
-- Runs of the definitions on concrete inputs, and the theorems applied to some.
mod Accesses
mod Backends
mod Clocks
mod Disks
mod Loads
mod Logs
mod Managers
mod Monitors
mod Requests
mod Setting
mod Validations
mod Zones
