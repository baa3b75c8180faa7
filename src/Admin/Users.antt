-- ===== src/Admin/Users.antt =====
-- internal/api/user_handlers.go and List of the user store.
-- `fresh` and `fresh_party` are what uuid draws, `caller` the user that the token names. A pointer
-- that a request may leave out is an Option, and so is a body that is no JSON.
use Prim.Native.Nat.{Ordering}
use Prim.Native.String.{compare}
use agentlens.Common.{
  ℕ, String, Bool, true, false, ◌&&◌, Option, none, some, List, [], ◌∷◌, length, filter, take, drop,
  find?, ltb, leb, ◌==◌, if◌then◌else◌,
}
use agentlens.Http.{error_response, sent, fail, answer}
use agentlens.Sql.{World, Outcome, done, raised, world, M, ◌>>=◌, return, context, query}
use agentlens.Tables.{Role, User, Tables}
use agentlens.Party.Persons.{create_person_for_user, update_person_for_user}
use agentlens.Auth.Users.{
  get_user_by_id, get_by_username, create_user, update_user, delete_user, get_role_by_id,
}
use agentlens.Auth.Hashing.{Hashed, hashed, rejected}
use agentlens.Admin.Roles.{Response, has_role_id, or_old}

-- ORDER BY username, with LIMIT and OFFSET where they are positive.
abbrev pub insert_by_username : User → List User → List User
insert_by_username u [] = u ∷ []
insert_by_username u (v ∷ us) = elim (compare u.username v.username) [
  | Ordering.gt ↦ v ∷ insert_by_username u us
  | _ ↦ u ∷ v ∷ us
]

abbrev pub order_users : List User → List User
order_users [] = []
order_users (u ∷ us) = insert_by_username u (order_users us)

abbrev pub limited : ℕ → List User → List User
limited limit us = if ltb 0 limit then take limit us else us

unfoldable pub list_users : (limit offset : ℕ) → M Tables (List User)
list_users limit offset = context "listing users" (
    query (λ t.
      limited limit
        (if ltb 0 offset then drop offset (order_users t.users) else order_users t.users)))

unfoldable pub list_users_handler : World Tables → Response (List User)
list_users_handler w = answer 500 "failed to list users" 200 (list_users 0 0 w)

pub record CreateUserRequest : Type 0 where
  pub username : String
  pub email : String
  pub display_name : String
  pub password : String
  pub role_id : String

abbrev pub new_user : String → CreateUserRequest → String → User
new_user fresh req hash = record {
  id = fresh;
  username = req.username;
  email = req.email;
  display_name = req.display_name;
  password_hash = hash;
  role_id = req.role_id;
  is_active = true;
  last_login = none;
  failed_attempts = 0;
  locked_until = none;
}

-- `with_parties` says whether a PartyStore is wired. The error of the compensation is logged only.
abbrev pub rolled_back : String → Outcome Tables (Unit {0}) → Outcome Tables (Unit {0})
rolled_back id (done u w) = done u w
rolled_back id (raised e w) = raised e (world (delete_user id w))

unfoldable pub sync_person_or_rollback : Bool → String → User → M Tables (Unit {0})
sync_person_or_rollback with_parties fresh_party user w =
    if with_parties
    then rolled_back user.id (create_person_for_user fresh_party user w)
    else done tt w

abbrev pub refetched : ℕ → User → Outcome Tables (Option User) → Response User
refetched status user (done (some stored) w) = (sent status stored, w)
refetched status user (done none w) = (sent status user, w)
refetched status user (raised e w) = (sent status user, w)

abbrev pub synced : User → Outcome Tables (Unit {0}) → Response User
synced user (raised e w) = fail 500 "failed to create user" w
synced user (done u w) = refetched 201 user (get_user_by_id user.id w)

module _ (with_parties : Bool) (fresh fresh_party : String) where
  abbrev pub user_inserted : User → Outcome Tables (Unit {0}) → Response User
  user_inserted user (raised e w) = fail 500 "failed to create user" w
  user_inserted user (done u w) =
      synced user (sync_person_or_rollback with_parties fresh_party user w)

  abbrev pub create_hashed : CreateUserRequest → Hashed → World Tables → Response User
  create_hashed req (rejected text) w = (error_response 400 text, w)
  create_hashed req (hashed hash) w =
      user_inserted (new_user fresh req hash) (create_user (new_user fresh req hash) w)

  module _ (trim : String → String) (hash : String → Hashed) where
    abbrev pub create_with_role : CreateUserRequest → Outcome Tables (Option Role) → Response User
    create_with_role req (raised e w) = fail 500 "internal error" w
    create_with_role req (done none w) = fail 400 "role not found" w
    create_with_role req (done (some role) w) = create_hashed req (hash req.password) w

    abbrev pub create_unnamed : CreateUserRequest → Outcome Tables (Option User) → Response User
    create_unnamed req (raised e w) = fail 500 "internal error" w
    create_unnamed req (done (some existing) w) = fail 409 "username already exists" w
    create_unnamed req (done none w) = create_with_role req (get_role_by_id req.role_id w)

    unfoldable pub create_user_handler : Option CreateUserRequest → World Tables → Response User
    create_user_handler none w = fail 400 "invalid request body" w
    create_user_handler (some req) w =
        if trim req.username == ""
        then fail 400 "username is required" w
        else if trim req.password == ""
        then fail 400 "password is required" w
        else if trim req.role_id == ""
        then fail 400 "role_id is required" w
        else create_unnamed req (get_by_username req.username w)

abbrev pub user_got : Outcome Tables (Option User) → Response User
user_got (raised e w) = fail 500 "failed to get user" w
user_got (done none w) = fail 404 "user not found" w
user_got (done (some u) w) = (sent 200 u, w)

unfoldable pub get_user_handler : String → World Tables → Response User
get_user_handler id w = user_got (get_user_by_id id w)

-- GetByID with the role preloaded by a second statement.
abbrev pub preload_role : Option User → M Tables (Option (User × Option Role))
preload_role none = return none
preload_role (some u) =
    context "getting user by id" (query (λ t. some (u, find? (has_role_id u.role_id) t.roles)))

unfoldable pub get_user_with_role : String → M Tables (Option (User × Option Role))
get_user_with_role id = get_user_by_id id >>= preload_role

-- `Save` of a user whose role is loaded takes role_id from the loaded role.
abbrev pub with_loaded : Option Role → User → User
with_loaded none u = u
with_loaded (some role) u = record u { role_id = role.id }

pub record UpdateUserRequest : Type 0 where
  pub email : Option String
  pub display_name : Option String
  pub role_id : Option String
  pub is_active : Option Bool

module _ (with_parties : Bool) (req : UpdateUserRequest) where
  abbrev pub is_named : Option String → Bool
  is_named none = false
  is_named (some name) = true

  -- The error of the person's update is logged only.
  abbrev pub user_saved : User → Outcome Tables (Unit {0}) → Response User
  user_saved user (raised e w) = fail 500 "failed to update user" w
  user_saved user (done u w) = refetched 200 user (
      get_user_by_id user.id (
        if with_parties && is_named req.display_name
        then world (update_person_for_user user w)
        else w))

  abbrev pub save_changed : Option Role → User → World Tables → Response User
  save_changed loaded u w =
      let user = with_loaded loaded (record u { is_active = or_old req.is_active u.is_active }) in
      user_saved user (update_user user w)

  abbrev pub role_checked :
      Option Role → User → String → Outcome Tables (Option Role) → Response User
  role_checked loaded u role_id (raised e w) = fail 500 "internal error" w
  role_checked loaded u role_id (done none w) = fail 400 "role not found" w
  role_checked loaded u role_id (done (some role) w) =
      save_changed loaded (record u { role_id = role_id }) w

  abbrev pub change_role : Option Role → User → Option String → World Tables → Response User
  change_role loaded u none w = save_changed loaded u w
  change_role loaded u (some role_id) w = role_checked loaded u role_id (get_role_by_id role_id w)

  abbrev pub update_user_found : Outcome Tables (Option (User × Option Role)) → Response User
  update_user_found (raised e w) = fail 500 "failed to get user" w
  update_user_found (done none w) = fail 404 "user not found" w
  update_user_found (done (some (u, loaded)) w) =
      change_role loaded
        (record u {
          email = or_old req.email u.email;
          display_name = or_old req.display_name u.display_name;
        })
        req.role_id w

unfoldable pub update_user_handler :
    Bool → String → Option UpdateUserRequest → World Tables → Response User
update_user_handler with_parties id none w = fail 400 "invalid request body" w
update_user_handler with_parties id (some req) w =
    update_user_found with_parties req (get_user_with_role id w)

abbrev pub is_admin_role : Option Role → Bool
is_admin_role none = false
is_admin_role (some r) = r.name == "admin"

abbrev pub counts_as : String → User → Bool
counts_as role_id u = u.role_id == role_id && u.is_active

abbrev pub remove_user : String → World Tables → Response (Unit {0})
remove_user id w = answer 500 "failed to delete user" 204 (delete_user id w)

abbrev pub delete_admin : User → String → Outcome Tables (List User) → Response (Unit {0})
delete_admin user id (raised e w) = fail 500 "internal error" w
delete_admin user id (done users w) =
    if leb (length (filter (counts_as user.role_id) users)) 1
    then fail 400 "cannot delete the last admin user" w
    else remove_user id w

abbrev pub delete_user_found :
    String → Outcome Tables (Option (User × Option Role)) → Response (Unit {0})
delete_user_found id (raised e w) = fail 500 "failed to get user" w
delete_user_found id (done none w) = fail 404 "user not found" w
delete_user_found id (done (some (user, role)) w) =
    if is_admin_role role then delete_admin user id (list_users 0 0 w) else remove_user id w

unfoldable pub delete_user_handler : (caller id : String) → World Tables → Response (Unit {0})
delete_user_handler caller id w =
    if id == caller
    then fail 400 "cannot delete your own account" w
    else delete_user_found id (get_user_with_role id w)
