-- ===== src/Admin/Roles.antt =====
-- internal/store/role_store.go and internal/api/role_handlers.go. `fresh` is what uuid draws; `trim`
-- is strings.TrimSpace. A body that is no JSON is `none`.
use Prim.Native.Nat.{Ordering}
use Prim.Native.String.{compare}
use agentlens.Common.{
  String, Bool, false, not, ◌||◌, Option, none, some, List, [], ◌∷◌, ◌++◌, any, find?, filter,
  update, codes, ◌==◌, if◌then◌else◌,
}
use agentlens.Http.{Reply, sent, fail, answer}
use agentlens.Sql.{
  plain, World, Outcome, done, raised, M, ◌>>=◌, return, raise, context, attempt, query, execute,
}
use agentlens.Tables.{Role, Tables}
use agentlens.Auth.Users.{get_role_by_id}

abbrev pub has_role_id : String → Role → Bool
has_role_id id r = r.id == id

unfoldable pub get_role_by_name : String → M Tables (Option Role)
get_role_by_name name =
    context "getting role by name" (query (λ t. find? (λ r. r.name == name) t.roles))

-- ORDER BY name
abbrev pub insert_role_by_name : Role → List Role → List Role
insert_role_by_name r [] = r ∷ []
insert_role_by_name r (s ∷ rs) = elim (compare r.name s.name) [
  | Ordering.gt ↦ s ∷ insert_role_by_name r rs
  | _ ↦ r ∷ s ∷ rs
]

abbrev pub order_roles : List Role → List Role
order_roles [] = []
order_roles (r ∷ rs) = insert_role_by_name r (order_roles rs)

unfoldable pub list_roles : M Tables (List Role)
list_roles = context "listing roles" (query (λ t. order_roles t.roles))

-- The primary key and the unique name.
abbrev pub insert_role : Role → Tables → Option (Unit {0} × Tables)
insert_role r t =
    if any (λ s. s.id == r.id || s.name == r.name) t.roles
    then none
    else some (tt, record t { roles = t.roles ++ r ∷ [] })

unfoldable pub create_role : Role → M Tables (Unit {0})
create_role r = context "creating role" (attempt (insert_role r))

-- `Save`; the unique name may refuse it.
abbrev pub name_taken : Role → List Role → Bool
name_taken r [] = false
name_taken r (s ∷ rs) = (if s.id == r.id then false else s.name == r.name) || name_taken r rs

abbrev pub save_role : Role → Tables → Option (Unit {0} × Tables)
save_role r t =
    if name_taken r t.roles
    then none
    else some (
      tt,
      record t {
        roles =
            if any (has_role_id r.id) t.roles
            then update (has_role_id r.id) (λ _. r) t.roles
            else t.roles ++ r ∷ [];
      },
    )

unfoldable pub update_role : Role → M Tables (Unit {0})
update_role r = context "updating role" (attempt (save_role r))

abbrev pub drop_role : String → Tables → Tables
drop_role id t = record t { roles = filter (λ r. not (has_role_id id r)) t.roles }

abbrev pub delete_role_found : String → Option Role → M Tables (Unit {0})
delete_role_found id none = return tt
delete_role_found id (some role) =
    if role.is_system
    then raise (plain (codes "cannot delete system role"))
    else context "deleting role" (execute (drop_role id))

unfoldable pub delete_role : String → M Tables (Unit {0})
delete_role id =
    context "finding role for deletion" (query (λ t. find? (has_role_id id) t.roles))
    >>= delete_role_found id

abbrev pub Response : Type 0 → Type 0
Response A = Reply A × World Tables

unfoldable pub list_roles_handler : World Tables → Response (List Role)
list_roles_handler w = answer 500 "failed to list roles" 200 (list_roles w)

pub record CreateRoleRequest : Type 0 where
  pub name : String
  pub description : String
  pub permissions : List String

abbrev pub new_role : String → CreateRoleRequest → Role
new_role fresh req = record {
  id = fresh;
  name = req.name;
  description = req.description;
  permissions = req.permissions;
  is_system = false;
}

abbrev pub role_created : Role → Outcome Tables (Unit {0}) → Response Role
role_created r (done u w) = (sent 201 r, w)
role_created r (raised e w) = fail 500 "failed to create role" w

abbrev pub create_unnamed :
    String → CreateRoleRequest → Outcome Tables (Option Role) → Response Role
create_unnamed fresh req (raised e w) = fail 500 "internal error" w
create_unnamed fresh req (done (some existing) w) = fail 409 "role name already exists" w
create_unnamed fresh req (done none w) =
    role_created (new_role fresh req) (create_role (new_role fresh req) w)

module _ (trim : String → String) where
  unfoldable pub create_role_handler :
      String → Option CreateRoleRequest → World Tables → Response Role
  create_role_handler fresh none w = fail 400 "invalid request body" w
  create_role_handler fresh (some req) w =
      if trim req.name == ""
      then fail 400 "name is required" w
      else create_unnamed fresh req (get_role_by_name req.name w)

pub record UpdateRoleRequest : Type 0 where
  pub name : Option String
  pub description : Option String
  pub permissions : Option (List String)

abbrev pub or_old {ℓ} : {A : Type ℓ} → Option A → A → A
or_old none old = old
or_old (some new) old = new

abbrev pub changed_role : UpdateRoleRequest → Role → Role
changed_role req r = record r {
  name = or_old req.name r.name;
  description = or_old req.description r.description;
  permissions = or_old req.permissions r.permissions;
}

abbrev pub role_updated : Role → Outcome Tables (Unit {0}) → Response Role
role_updated r (done u w) = (sent 200 r, w)
role_updated r (raised e w) = fail 500 "failed to update role" w

abbrev pub update_role_found : UpdateRoleRequest → Outcome Tables (Option Role) → Response Role
update_role_found req (raised e w) = fail 500 "failed to get role" w
update_role_found req (done none w) = fail 404 "role not found" w
update_role_found req (done (some r) w) =
    role_updated (changed_role req r) (update_role (changed_role req r) w)

unfoldable pub update_role_handler :
    String → Option UpdateRoleRequest → World Tables → Response Role
update_role_handler id none w = fail 400 "invalid request body" w
update_role_handler id (some req) w = update_role_found req (get_role_by_id id w)

abbrev pub delete_role_of : String → Outcome Tables (Option Role) → Response (Unit {0})
delete_role_of id (raised e w) = fail 500 "failed to get role" w
delete_role_of id (done none w) = fail 404 "role not found" w
delete_role_of id (done (some r) w) =
    if r.is_system
    then fail 400 "cannot delete system role" w
    else answer 500 "failed to delete role" 204 (delete_role id w)

unfoldable pub delete_role_handler : String → World Tables → Response (Unit {0})
delete_role_handler id w = delete_role_of id (get_role_by_id id w)
