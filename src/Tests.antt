-- ===== src/Tests.antt =====
-- The theorems at concrete inputs.
pub mod Samples
pub mod Platform
pub mod Bus
pub mod Store
pub mod Preflight
pub mod Models
pub mod Flows
pub mod Engine
pub mod Entry
pub mod Attempts
