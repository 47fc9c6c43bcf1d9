-- ===== src/Store/Exclusion.antt =====
-- At most one exclusive operation is under way on a server, whatever calls and workers run.
pub mod Operations
pub mod Queue
pub mod Backups
pub mod Allocations
pub mod Ends
pub mod Archives
pub mod Runs
