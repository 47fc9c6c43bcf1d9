-- ===== src/Store/Backups.antt =====
-- internal/domain/backup.go and internal/store/backups.go.
pub mod Requests
pub mod Workers
