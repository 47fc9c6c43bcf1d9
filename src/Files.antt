-- ===== src/Files.antt =====
-- The server's files (internal/files): the paths that requests name.
pub mod Paths
mod Names
mod Walks
mod Forms
pub mod Portable
pub mod Confined
pub mod Settled
mod Tests
