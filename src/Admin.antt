-- ===== src/Admin.antt =====
-- Administration of users, roles and settings: internal/api/user_handlers.go, role_handlers.go,
-- settings_handlers.go, and their stores. Foreign keys are not modelled: a statement that one
-- refuses is a fault.
pub mod Roles
pub mod Users
pub mod Settings
mod LastAdmin
mod UserSteps
mod Created
mod SystemRoles
mod Stored
mod Tests
