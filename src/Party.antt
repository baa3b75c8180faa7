-- ===== src/Party.antt =====
-- The party graph: internal/store/party_store*.go and internal/api/party*.go.
pub mod Graph
pub mod Recursion
pub mod Incremental
pub mod Store
pub mod Members
pub mod Persons
pub mod Closure
pub mod Invariant
pub mod History
mod Guards
pub mod Guarantees
pub mod Deletion
pub mod Projects
pub mod Permission
pub mod Handlers
mod BestRoles
mod Roles
mod Tests
