-- ===== src/Identity.antt =====
-- internal/store/identity.go, access_tokens.go, enrollment_tokens.go and the sessions of memory.go.
pub mod State
pub mod Names
pub mod Sorting
pub mod Access
pub mod Queries
pub mod Grants
pub mod Users
pub mod Updates
pub mod Resets
pub mod Sessions
pub mod Tokens
pub mod Members
pub mod Runs
pub mod Effects
pub mod Changes
pub mod Emails
pub mod Admins
pub mod Held
pub mod KeptSessions
pub mod KeptTokens
pub mod Revoked
pub mod Credentials
pub mod Logins
pub mod Renewal
pub mod Once
pub mod ConsoleTokens
pub mod ApiTokens
mod Samples
mod Tests
