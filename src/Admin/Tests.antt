-- ===== src/Admin/Tests.antt =====
-- The administration handlers on concrete requests.
use agentlens.Common.{
  String, codes, ◌≡◌, refl, Bool, true, false, Option, none, some, List, [], ◌∷◌,
}
use agentlens.Http.{error_response, sent}
use agentlens.Sql.{World, calm, done, ◌>>=◌, context, attempt}
use agentlens.Tables.{Role, User, Tables}
use agentlens.Auth.Users.{get_user_by_id, get_role_by_id, delete_user, update_user}
use agentlens.Auth.Hashing.{Hashed, hashed}
use agentlens.Admin.Roles.{
  delete_role_handler, create_role_handler, update_role_handler, get_role_by_name, create_role,
  update_role, delete_role,
}
use agentlens.Admin.SystemRoles.{
  IsSystemRole, RoleRequest, create, change, remove, serve, serve_all, serve_all-IsSystemRole,
}
use agentlens.Admin.Users.{
  CreateUserRequest, update_user_handler, delete_user_handler, list_users, get_user_with_role,
}
use agentlens.Admin.LastAdmin.{HasAdmin, delete_user_handler-HasAdmin}
use agentlens.Admin.Settings.{Setting, Settings, get_setting, update_settings_handler}
use agentlens.Admin.Stored.{last_value, update_settings-get_setting, value_of}

abbrev role : String → String → Bool → Role
role id name system = record {
  id = id;
  name = name;
  description = "";
  permissions = "users:read" ∷ [];
  is_system = system;
}

abbrev user : String → String → String → User
user id name role_id = record {
  id = id;
  username = name;
  email = "";
  display_name = "";
  password_hash = "";
  role_id = role_id;
  is_active = true;
  last_login = none;
  failed_attempts = 0;
  locked_until = none;
}

abbrev office : Tables
office = record {
  users = user "u1" "ann" "r1" ∷ user "u2" "bob" "r1" ∷ user "u3" "cid" "r2" ∷ [];
  roles = role "r1" "admin" true ∷ role "r2" "viewer" false ∷ [];
  parties = [];
  relationships = [];
  closures = [];
  global_roles = [];
  memberships = [];
}

abbrev hash : String → Hashed
hash password = hashed "hash"

abbrev request : CreateUserRequest
request = record {
  username = "dee";
  email = "";
  display_name = "";
  password = "secret";
  role_id = "r2";
}

abbrev requests : List RoleRequest
requests =
    remove "r1"
    ∷ change "r1" (some (record { name = some "root"; description = none; permissions = none }))
    ∷ create "r3" (some (record { name = "editor"; description = ""; permissions = [] }))
    ∷ remove "r2"
    ∷ []

abbrev names : World Tables → List String
names w = go w.tables.roles
  where
    go : List Role → List String
    go [] = []
    go (r ∷ rs) = r.name ∷ go rs

-- The system role stays, renamed; the other one goes.
roles_run : names (serve_all (λ s. s) requests (calm office)) ≡ "root" ∷ "editor" ∷ []
unfolding serve_all serve create_role_handler update_role_handler delete_role_handler get_role_by_id
    get_role_by_name create_role update_role delete_role ◌>>=◌ context attempt
roles_run = refl

-- The second administrator can be deleted, the last one cannot, and nobody deletes himself.
deletions_run :
    (delete_user_handler "u3" "u1" (calm office)).0 ≡ sent 204 tt
    × (delete_user_handler "u3" "u2" (delete_user_handler "u3" "u1" (calm office)).1).0
      ≡ error_response 400 (codes "cannot delete the last admin user")
    × (delete_user_handler "u3" "u3" (calm office)).0
      ≡ error_response 400 (codes "cannot delete your own account")
unfolding delete_user_handler get_user_with_role get_user_by_id list_users delete_user ◌>>=◌ context
    attempt
deletions_run = (refl, refl, refl)

-- A new role is checked, and not stored.
role_change_run :
    (update_user_handler false "u3"
      (some (record { email = none; display_name = none; role_id = some "r1"; is_active = none }))
      (calm office)).1
    ≡ calm office
unfolding update_user_handler get_user_with_role get_user_by_id get_role_by_id update_user ◌>>=◌
    context attempt
role_change_run = refl

serve_all-IsSystemRole_example :
    IsSystemRole "r1" (serve_all (λ s. s) requests (calm office)).tables
serve_all-IsSystemRole_example =
    serve_all-IsSystemRole (λ s. s) "r1" requests (calm office)
      (role "r1" "admin" true, (refl, refl))

office_admins : HasAdmin office
office_admins = record { distinct = (refl, (refl, (refl, tt))); admin = refl }

delete_user_handler-HasAdmin_example :
    HasAdmin (delete_user_handler "u3" "u1" (calm office)).1.tables
delete_user_handler-HasAdmin_example =
    delete_user_handler-HasAdmin "u3" "u1" (calm office) office_admins

abbrev stored_settings : Settings
stored_settings = record { key = "a"; value = "1"; category = "general"; description = "" } ∷ []

abbrev updates : List (String × String)
updates = ("b", "2") ∷ ("a", "3") ∷ []

update_settings-get_setting_example :
    (ss' : Settings) × ((update_settings_handler (some updates) (calm stored_settings)
        ≡ (sent 200 tt, calm ss'))
      × ((k : String)
          → (o o' : Option Setting) × ((get_setting k (calm stored_settings)
                ≡ done o (calm stored_settings))
              × ((get_setting k (calm ss') ≡ done o' (calm ss'))
                  × (value_of o' ≡ last_value updates k (value_of o))))))
update_settings-get_setting_example = update_settings-get_setting updates stored_settings refl
