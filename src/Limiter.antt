-- ===== src/Limiter.antt =====
-- internal/identity/login_limiter.go: the limiter of login attempts.
-- Times are nanoseconds since Go's zero time, so `IsZero` is `== 0`; each call takes the value that
-- the clock returned to it. The mutex makes each call one step.
pub mod State
pub mod Keys
pub mod Reserve
pub mod Complete
pub mod Sound
pub mod Budget
pub mod Flight
pub mod Ledger
pub mod Checks
pub mod Blocks
pub mod Lockout
mod Tests
