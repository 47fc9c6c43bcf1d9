-- ===== src/Store/Allocations.antt =====
-- Network allocations.
pub mod Mutations
pub mod Requests
pub mod Places
pub mod Endpoints
pub mod Listening
pub mod Network
pub mod Ports
pub mod Safety
