-- ===== src/Contracts.antt =====
-- The frozen message contracts (packages/contracts): one module for each of its files.
pub mod Common
pub mod Events
pub mod Commands
pub mod Results
