-- ===== src/Workflow.antt =====
-- packages/workflow_engine/src/aieos/workflow_engine: governance.py and engine.py
pub mod Governance
pub mod Instance
pub mod Repository
pub mod Cancel
pub mod Payload
pub mod Command
pub mod Attempt
pub mod System
pub mod Ending
pub mod Accounting
pub mod Complete
pub mod Live
pub mod Ended
pub mod Receipt
pub mod Consume
pub mod Start
pub mod Handle
