-- ===== src/Agent.antt =====
-- agent/: the simulated device, from its HTTP endpoint down to the engine.
pub mod Engine
pub mod Script
pub mod Control
pub mod Registration
pub mod Endpoint
pub mod Idempotence
