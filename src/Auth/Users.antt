-- ===== src/Auth/Users.antt =====
-- internal/store/user_store.go, user_store_lockout.go and GetByID of role_store.go. `Save` replaces
-- the row of the same identifier, or adds the row. Preloaded roles are not part of a row.
use agentlens.Common.{
  ℕ, ◌+◌, String, Bool, not, ◌||◌, Option, none, some, List, [], ◌∷◌, ◌++◌, length, filter, any,
  find?, update, leb, codes, ◌==◌, if◌then◌else◌,
}
use agentlens.Sql.{plain, M, ◌>>=◌, raise, context, attempt, query, execute, transaction}
use agentlens.Tables.{Role, User, Tables}

abbrev pub max_failed_attempts : ℕ
max_failed_attempts = 5

-- Fifteen minutes.
abbrev pub lock_duration : ℕ
lock_duration = 900000000000

abbrev pub has_user_id : String → User → Bool
has_user_id id u = u.id == id

abbrev pub has_username : String → User → Bool
has_username username u = u.username == username

-- The primary key and the unique username.
abbrev pub insert_user : User → Tables → Option (Unit {0} × Tables)
insert_user u t =
    if any (λ v. v.id == u.id || v.username == u.username) t.users
    then none
    else some (tt, record t { users = t.users ++ u ∷ [] })

unfoldable pub create_user : User → M Tables (Unit {0})
create_user u = context "creating user" (attempt (insert_user u))

unfoldable pub get_user_by_id : String → M Tables (Option User)
get_user_by_id id = context "getting user by id" (query (λ t. find? (has_user_id id) t.users))

unfoldable pub get_by_username : String → M Tables (Option User)
get_by_username username =
    context "getting user by username" (query (λ t. find? (has_username username) t.users))

abbrev pub put_user : User → List User → List User
put_user u us = update (has_user_id u.id) (λ _. u) us

abbrev pub save_user : User → Tables → Tables
save_user u t = record t {
  users = if any (has_user_id u.id) t.users then put_user u t.users else t.users ++ u ∷ [];
}

unfoldable pub update_user : User → M Tables (Unit {0})
update_user u = context "updating user" (execute (save_user u))

unfoldable pub delete_user : String → M Tables (Unit {0})
delete_user id =
    context "deleting user"
      (execute (λ t. record t { users = filter (λ u. not (has_user_id id u)) t.users }))

abbrev pub set_user : String → (User → User) → Tables → Tables
set_user id f t = record t { users = update (has_user_id id) f t.users }

unfoldable pub update_last_login : ℕ → String → M Tables (Unit {0})
update_last_login now id =
    context "updating last login" (execute (set_user id (λ u. record u { last_login = some now })))

unfoldable pub count_users : M Tables ℕ
count_users = context "counting users" (query (λ t. length t.users))

abbrev pub failed_again : ℕ → User → User
failed_again now u =
    let failures = u.failed_attempts + 1 in
    if leb max_failed_attempts failures
    then record u { failed_attempts = failures; locked_until = some (now + lock_duration) }
    else record u { failed_attempts = failures }

abbrev pub increment_found : ℕ → Option User → M Tables (Unit {0})
increment_found now none =
    context "finding user for failed attempt increment" (raise (plain (codes "record not found")))
increment_found now (some u) =
    context "saving incremented failed attempts" (execute (save_user (failed_again now u)))

unfoldable pub increment_failed_attempts : ℕ → String → M Tables (Unit {0})
increment_failed_attempts now id = transaction (
    context "finding user for failed attempt increment"
      (query (λ t. find? (has_user_id id) t.users))
    >>= increment_found now)

unfoldable pub reset_failed_attempts : String → M Tables (Unit {0})
reset_failed_attempts id =
    context "resetting failed attempts"
      (execute (set_user id (λ u. record u { failed_attempts = 0; locked_until = none })))

unfoldable pub lock_user : String → ℕ → M Tables (Unit {0})
lock_user id until =
    context "locking user" (execute (set_user id (λ u. record u { locked_until = some until })))

-- `GetByID` of the role store.
unfoldable pub get_role_by_id : String → M Tables (Option Role)
get_role_by_id id = context "getting role by id" (query (λ t. find? (λ r. r.id == id) t.roles))
