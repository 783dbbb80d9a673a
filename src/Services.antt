-- ===== src/Services.antt =====
-- The services of the product: their registry, the order in which they start, and the life of one.
pub mod Registry
pub mod Manager
pub mod Lifecycle
