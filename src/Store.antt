-- ===== src/Store.antt =====
-- internal/store, the in-memory adapter of the control plane: its records, the operations that it
-- queues and finishes, the authorization of the caller, and the backups.
pub mod Types
pub mod Exec
pub mod Metadata
pub mod Access
pub mod Idempotency
pub mod Liveness
pub mod Power
pub mod Finish
pub mod Backups
pub mod Allocations
pub mod Lifecycle
pub mod Exclusion
pub mod Replay
pub mod Denial
pub mod Rights
mod Samples
mod Tests
mod Repeats
