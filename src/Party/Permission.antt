-- ===== src/Party/Permission.antt =====
-- internal/auth/permissions.go, party_permissions.go and internal/api/party_middleware.go. The
-- middleware answers with one of three: the next handler runs, or a status.
pub mod Reads
pub mod Decides
use agentlens.Common.{
  String, Bool, true, false, Option, none, some, List, [], ◌∷◌, any, length, ltb, ◌==◌,
  if◌then◌else◌,
}
use agentlens.Sql.{World, Outcome, done, raised, M, ◌>>=◌, return}
use agentlens.Tables.{Role, Party, Tables}
use agentlens.Party.Store.{get_party_by_user_id, ancestor_group_ids}
use agentlens.Party.Projects.{get_project_roles, get_roles_for_parties}

abbrev pub catalog_read : String
catalog_read = "catalog:read"

abbrev pub catalog_write : String
catalog_write = "catalog:write"

abbrev pub catalog_delete : String
catalog_delete = "catalog:delete"

unfoldable pub has_permission : List String → String → Bool
has_permission perms required = any (λ p. p == required) perms

abbrev pub project_role_permissions : String → Option (List String)
project_role_permissions role =
    if role == "project:owner"
    then some (catalog_read ∷ catalog_write ∷ catalog_delete ∷ [])
    else if role == "project:developer"
    then some (catalog_read ∷ catalog_write ∷ [])
    else if role == "project:viewer"
    then some (catalog_read ∷ [])
    else none

abbrev pub granted : Option (List String) → String → Bool
granted none permission = false
granted (some perms) permission = has_permission perms permission

unfoldable pub project_role_has_permission : String → String → Bool
project_role_has_permission role permission = granted (project_role_permissions role) permission

-- The ancestors that this request has read already, or those that the store has.
unfoldable pub cached_ancestor_ids : Option (List String) → String → M Tables (List String)
cached_ancestor_ids (some cached) party_id = return cached
cached_ancestor_ids none party_id = ancestor_group_ids party_id

pub data Decision : Type 0 where
  next : Decision
  forbidden : Decision
  internal_server_error : Decision

module _ (cache : Option (List String)) (project_id permission : String) where
  -- Steps 2 and 3 of the resolution order, for the user's party.
  abbrev pub resolve_for : Option Party → M Tables Bool
  resolve_for none = return false
  resolve_for (some user_party) = do
    ancestor_ids ← cached_ancestor_ids cache user_party.id
    group_roles ←
        if ltb 0 (length ancestor_ids) then get_roles_for_parties ancestor_ids else return []
    if any (λ role. has_permission role.permissions permission) group_roles then return true else do
      project_roles ← get_project_roles (user_party.id ∷ ancestor_ids) project_id
      return (any (λ role. project_role_has_permission role permission) project_roles)

  abbrev pub decision : Outcome Tables Bool → Decision
  decision (done true w) = next
  decision (done false w) = forbidden
  decision (raised e w) = internal_server_error

  -- `perms` and `user_id` are what the token put into the request's context.
  unfoldable pub require_project_permission : List String → String → World Tables → Decision
  require_project_permission perms user_id w =
      if has_permission perms permission
      then next
      else decision ((get_party_by_user_id user_id >>= resolve_for) w)
