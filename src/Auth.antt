-- ===== src/Auth.antt =====
-- Accounts: internal/auth/password.go, internal/store/user_store.go and user_store_lockout.go, and
-- Login of internal/api/auth_handlers.go, and internal/auth/bootstrap.go.
pub mod Password
pub mod Users
pub mod Login
pub mod Hashing
pub mod Bootstrap
pub mod Sessions
mod Lockout
mod Generated
mod FirstUser
mod Tokens
mod Changes
mod SessionTests
mod Tests
