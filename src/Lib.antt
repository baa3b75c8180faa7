-- ===== src/Lib.antt =====
-- AgentLens: the party graph, project permissions, accounts and their administration, the catalog,
-- its capabilities, the fetching and the validation of cards, the health of entries, plugins and
-- migrations.
--
-- AgentLens keeps people, groups and projects as parties. Relationships of the name group_member
-- contain one party in another, and party_group_closures holds the transitive closure of them.
-- Roles of groups and of project members decide what a request may do in a project. Catalog entries
-- are probed; the probes and an administrator move them through a lifecycle.
--
-- Files and the code they are about (Common holds shared helpers):
-- Tables: internal/model/party.go, party_query.go, role.go, user.go. A table is a list of rows.
-- Sql: the shape of every store method: statements that may fail, in a transaction or not. The
--   faults to come are a list in the state, so every theorem over a world covers every failure.
-- Party/Store, Members, Persons, Projects: internal/store/party_store.go, party_store_members.go,
--   party_store_person_sync.go, party_project_store.go, party_store_role_resolution.go; one
--   definition per method, named like it (AddMember is add_member).
-- Http: internal/api/responses.go.
-- Party/Recursion: what SQL's WITH RECURSIVE gives, as an interface that the closure rebuild takes;
--   Party/Incremental fills it with an engine that runs.
-- Party/Permission: internal/api/party_middleware.go, internal/auth/permissions.go and
--   party_permissions.go. Party/Handlers: internal/api/party_handlers.go and party_kind_configs.go,
--   a handler's answer and the tables it leaves. Party/Graph, Closure, Invariant, History, Guards, Guarantees, Deletion, BestRoles and Roles are
--   proofs, Party/Tests are runs.
--
-- Health: plugins/health/health.go and health_prober.go; Health/Store: internal/store/health_store.go
--   and the reads of the catalog store that probes use; Health/Limiter and Health/Handlers:
--   internal/api/health_handlers.go. Health/Transitions, Limits, Interleavings and Answers are
--   proofs, Health/Tests runs. The goroutines of a round of probes are taken one after the other.
--
-- Auth: accounts. Auth/Users: internal/store/user_store.go and user_store_lockout.go; Auth/Password:
--   internal/auth/password.go; Auth/Login: Login of internal/api/auth_handlers.go, where bcrypt, the
--   token service and the classes of unicode are parameters; Auth/Hashing: HashPassword; Auth/Bootstrap:
--   internal/auth/bootstrap.go. Auth/Lockout, Generated and FirstUser are proofs, Auth/Tests and
--   Auth/Generated/Tests runs.
--
-- Auth/Sessions: internal/auth/jwt.go, internal/api/auth_middleware.go, and Refresh, Me and
--   ChangePassword of internal/api/auth_handlers.go. Auth/Tokens and Changes are proofs,
--   Auth/SessionTests runs.
--
-- Fetcher: internal/service/card_fetcher.go, with the packages that it calls as the record Network.
--   The recursion is on the redirects left. Fetcher/Safety and Ranges are proofs, Fetcher/Tests runs.
--
-- Card: plugins/parsers/a2a/validation.go, where encoding/json is the record Json. Card/Complete and
--   Decimal are proofs, Card/Tests runs.
--
-- Admin: Admin/Users: internal/api/user_handlers.go with HashPassword; Admin/Roles:
--   internal/store/role_store.go and internal/api/role_handlers.go; Admin/Settings:
--   internal/store/settings_store.go and internal/api/settings_handlers.go. Admin/LastAdmin, Created,
--   UserSteps, SystemRoles and Stored are proofs, Admin/Tests runs.
--
-- Kernel: internal/kernel/plugin_manager.go and the registry of kernel.go and core_registry.go, with
--   the plugins' own behaviour as a record. Kernel/Lifecycle is proofs, Kernel/Tests runs.
--
-- Migrate: internal/db/migrate.go. Migrate/Resumes, Completes and Sorted are proofs, Migrate/Tests
--   runs.
--
-- Catalog: the writes of internal/store/sql_store.go and FindByEndpoint, with the party store of
--   Party/Projects in the same database. Catalog/Providers: internal/store/provider_store.go;
--   Catalog/ProjectRoutes: internal/api/catalog_project.go. Catalog/Assigned and Leftover are proofs,
--   Catalog/Tests runs.
--
-- Capability: internal/model/capability.go, a2a_capabilities.go, a2a_security_capabilities.go and
--   mcp_capabilities.go, and buildAuthSummary of agent.go. Capability/Ordered and Summary are proofs,
--   Capability/Tests runs.
--
-- Loops over lists are structural. The search for a free position of a generated password runs on
-- fuel, one step for each position, which is enough since at most three are used. Identifiers that uuid.New draws
-- are arguments. Not modelled: timestamps that gorm writes, logging, JSON, and the driver; the
-- searches of the catalog, discovery, the parsing of cards, telemetry and the HTTP router.
pub mod Common
pub mod Sql
pub mod Http
pub mod Tables
pub mod Party
pub mod Health
pub mod Auth
pub mod Fetcher
pub mod Card
pub mod Admin
pub mod Kernel
pub mod Migrate
pub mod Catalog
pub mod Capability
