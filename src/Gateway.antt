-- ===== src/Gateway.antt =====
-- packages/ai_gateway/src/aieos/ai_gateway/gateway.py: the data of the AI Gateway, the in-memory
-- store `ReferenceGatewayStore`, and the choice of a model.
pub mod Types
pub mod Store
pub mod Execution
pub mod Budget
pub mod Usage
pub mod Effects
pub mod Preflight
pub mod Routing
