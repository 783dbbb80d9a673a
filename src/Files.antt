-- ===== src/Files.antt =====
-- The files, hashes and random ids of daemon/storage.cpp.
pub mod Kernel
pub mod Read
pub mod Write
pub mod Ids
