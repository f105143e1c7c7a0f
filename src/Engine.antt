-- ===== src/Engine.antt =====
-- internal/engine/manager.go: the nodes, the instance that keeps them, and its operations.
pub mod Node
pub mod Instance
pub mod Pick
pub mod Upkeep
pub mod Connect
pub mod Health
