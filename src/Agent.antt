-- ===== src/Agent.antt =====
-- The agent: its journal of operations (internal/agent).
pub mod Journal
pub mod Eviction
pub mod Fidelity
pub mod Tasks
pub mod Deliveries
mod Tests
