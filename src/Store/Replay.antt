-- ===== src/Store/Replay.antt =====
-- Idempotency keys: what a request leaves behind, and what it is answered when it comes again.
pub mod Answers
pub mod Ensures
pub mod Records
pub mod Power
pub mod Backups
pub mod Kinds
