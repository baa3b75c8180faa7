-- ===== src/Auth/Login.antt =====
-- Login of internal/api/auth_handlers.go. `check` is bcrypt's comparison of a password with a hash,
-- `generate` the token service; `none` is a body that is no JSON, or a token that is not made.
use agentlens.Common.{
  ℕ, String, Bool, false, not, ◌||◌, Option, none, some, Text, ltb, ◌==◌, if◌then◌else◌,
}
use agentlens.Sql.{World, Outcome, done, raised, world}
use agentlens.Tables.{Role, User, Tables}
use agentlens.Auth.Users.{
  get_by_username, increment_failed_attempts, reset_failed_attempts, update_last_login,
  get_role_by_id,
}

pub data LoginResponse : Type 0 where
  refused : (status : ℕ) → LoginResponse
  signed_in : (token : Text) → User → LoginResponse

abbrev pub is_locked : ℕ → User → Bool
is_locked now u = elim u.locked_until [ none ↦ false | some until ↦ ltb now until ]

abbrev pub token_answer : User → Option Text → LoginResponse
token_answer u none = refused 500
token_answer u (some token) = signed_in token u

module _ (check : String → String → Bool) (generate : User → Option Role → Option Text) where
  abbrev pub role_answer : User → Outcome Tables (Option Role) → LoginResponse × World Tables
  role_answer u (raised e w) = (refused 500, w)
  role_answer u (done role w) = (token_answer u (generate u role), w)

  -- The errors of the three writes are dropped.
  abbrev pub authenticated : ℕ → User → World Tables → LoginResponse × World Tables
  authenticated now u w = role_answer u (
      get_role_by_id u.role_id
        (world (update_last_login now u.id (world (reset_failed_attempts u.id w)))))

  abbrev pub login_found : ℕ → String → Outcome Tables (Option User) → LoginResponse × World Tables
  login_found now password (raised e w) = (refused 500, w)
  login_found now password (done none w) = (refused 401, w)
  login_found now password (done (some u) w) =
      if not u.is_active
      then (refused 403, w)
      else if is_locked now u
      then (refused 423, w)
      else if not (check password u.password_hash)
      then (refused 401, world (increment_failed_attempts now u.id w))
      else authenticated now u w

  unfoldable pub login : ℕ → Option (String × String) → World Tables → LoginResponse × World Tables
  login now none w = (refused 400, w)
  login now (some (username, password)) w =
      if username == "" || password == ""
      then (refused 400, w)
      else login_found now password (get_by_username username w)
