-- ===== src/Registry.antt =====
-- The static catalogs of Skills and Capabilities, and the command dispatcher's routing table.
pub mod Skill
pub mod Capability
pub mod Dispatcher
