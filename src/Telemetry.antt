-- ===== src/Telemetry.antt =====
-- The telemetry that agents report: console lines and server metrics (internal/store).
pub mod Console
pub mod Retention
pub mod Hub
pub mod Window
pub mod Metrics
pub mod History
mod Tests
