-- ===== src/Auth/Sessions.antt =====
-- internal/auth/jwt.go, internal/api/auth_middleware.go, and Refresh, Me and ChangePassword of
-- internal/api/auth_handlers.go. The package jwt is the record Jwt; times are nanoseconds, a token
-- and a header are the lists of their bytes. Cookies of an answer are left out.
use agentlens.Common.{
  ℕ, ◌+◌, String, Bool, not, ◌||◌, Option, none, some, List, [], ◌∷◌, drop, starts_with, eqb, Text,
  codes, ◌==◌, if◌then◌else◌,
}
use agentlens.Http.{Reply, error_response, sent, fail, answer}
use agentlens.Sql.{World, Outcome, done, raised}
use agentlens.Tables.{Role, User, Tables}
use agentlens.Party.Permission.{has_permission}
use agentlens.Auth.Password.{Unicode, validate_password_strength}
use agentlens.Auth.Hashing.{Hashed, hashed, rejected}
use agentlens.Auth.Users.{get_user_by_id, get_role_by_id, update_user}

pub record JwtConfig : Type 0 where
  pub secret : String
  pub expiration : ℕ
  pub refresh_window : ℕ

pub record Claims : Type 0 where
  pub user_id : String
  pub username : String
  pub role_id : String
  pub permissions : List String
  pub expires_at : ℕ
  pub issued_at : ℕ
  pub not_before : ℕ
  pub issuer : String
  pub subject : String

-- NewNumericDate, SignedString under HS256, and ParseWithClaims at a time, which refuses another
-- method of signing than HMAC.
pub record Jwt : Type 0 where
  pub numeric_date : ℕ → ℕ
  pub sign : Claims → String → Option Text
  pub parse : ℕ → Text → String → Option Claims

abbrev pub or_default : ℕ → ℕ → ℕ
or_default n default = if eqb n 0 then default else n

-- A day, and half an hour; `drawn` is the random secret.
unfoldable pub new_jwt_service : String → JwtConfig → JwtConfig
new_jwt_service drawn cfg = record {
  secret = if cfg.secret == "" then drawn else cfg.secret;
  expiration = or_default cfg.expiration 86400000000000;
  refresh_window = or_default cfg.refresh_window 1800000000000;
}

abbrev pub permissions_of : Option Role → List String
permissions_of none = []
permissions_of (some role) = role.permissions

module _ (jwt : Jwt) (cfg : JwtConfig) where
  abbrev pub claims_of : ℕ → User → Option Role → Claims
  claims_of now user role = record {
    user_id = user.id;
    username = user.username;
    role_id = user.role_id;
    permissions = permissions_of role;
    expires_at = jwt.numeric_date (now + cfg.expiration);
    issued_at = jwt.numeric_date now;
    not_before = jwt.numeric_date now;
    issuer = "agentlens";
    subject = user.id;
  }

  unfoldable pub generate_token : ℕ → User → Option Role → Option Text
  generate_token now user role = jwt.sign (claims_of now user role) cfg.secret

  unfoldable pub validate_token : ℕ → Text → Option Claims
  validate_token now token = jwt.parse now token cfg.secret

pub record Request : Type 0 where
  pub authorization : Text
  pub cookie : Option Text

abbrev pub bearer : Text
bearer = codes "Bearer "

abbrev pub or_cookie : Text → Option Text → Text
or_cookie [] none = []
or_cookie [] (some token) = token
or_cookie (c ∷ cs) cookie = c ∷ cs

unfoldable pub token_of : Request → Text
token_of r =
    or_cookie (if starts_with r.authorization bearer then drop 7 r.authorization else []) r.cookie

-- A request is refused, or goes on with the claims in its context.
pub data Admission : Type 0 where
  denied : (status : ℕ) → String → Admission
  admitted : Claims → Admission

abbrev pub claims_admitted : Option Claims → Admission
claims_admitted none = denied 401 "invalid or expired token"
claims_admitted (some claims) = admitted claims

module _ (jwt : Jwt) (cfg : JwtConfig) where
  abbrev pub token_admitted : ℕ → Text → Admission
  token_admitted now [] = denied 401 "authentication required"
  token_admitted now (c ∷ cs) = claims_admitted (validate_token jwt cfg now (c ∷ cs))

  unfoldable pub require_auth : ℕ → Request → Admission
  require_auth now r = token_admitted now (token_of r)

unfoldable pub require_permission : String → Admission → Admission
require_permission perm (denied status text) = denied status text
require_permission perm (admitted claims) =
    if not (has_permission claims.permissions perm)
    then denied 403 "insufficient permissions"
    else admitted claims

-- `caller` is the user of the claims.
abbrev pub Response : Type 0 → Type 0
Response A = Reply A × World Tables

abbrev pub me_found : Outcome Tables (Option User) → Response User
me_found (raised e w) = fail 404 "user not found" w
me_found (done none w) = fail 404 "user not found" w
me_found (done (some u) w) = (sent 200 u, w)

unfoldable pub me : String → World Tables → Response User
me caller w = me_found (get_user_by_id caller w)

module _ (generate : User → Option Role → Option Text) where
  abbrev pub token_sent : Option Text → World Tables → Response Text
  token_sent none w = fail 500 "failed to generate token" w
  token_sent (some token) w = (sent 200 token, w)

  abbrev pub refresh_role : User → Outcome Tables (Option Role) → Response Text
  refresh_role u (raised e w) = fail 500 "internal error" w
  refresh_role u (done role w) = token_sent (generate u role) w

  abbrev pub refresh_found : Outcome Tables (Option User) → Response Text
  refresh_found (raised e w) = fail 401 "user not found" w
  refresh_found (done none w) = fail 401 "user not found" w
  refresh_found (done (some u) w) =
      if not u.is_active
      then fail 401 "account is disabled" w
      else refresh_role u (get_role_by_id u.role_id w)

  unfoldable pub refresh : String → World Tables → Response Text
  refresh caller w = refresh_found (get_user_by_id caller w)

pub record ChangePasswordRequest : Type 0 where
  pub current_password : String
  pub new_password : String

module _ (unicode : Unicode) (check : String → String → Bool) (hash : Text → Hashed) where
  abbrev pub save_password : User → Hashed → World Tables → Response (Unit {0})
  save_password u (rejected err) w = (error_response 400 err, w)
  save_password u (hashed h) w =
      answer 500 "failed to update password" 200 (update_user (record u { password_hash = h }) w)

  abbrev pub strength_checked : User → String → Option String → World Tables → Response (Unit {0})
  strength_checked u new (some weak) w = fail 400 weak w
  strength_checked u new none w = save_password u (hash (codes new)) w

  abbrev pub change_found :
      ChangePasswordRequest → Outcome Tables (Option User) → Response (Unit {0})
  change_found req (raised e w) = fail 404 "user not found" w
  change_found req (done none w) = fail 404 "user not found" w
  change_found req (done (some u) w) =
      if not (check req.current_password u.password_hash)
      then fail 401 "current password is incorrect" w
      else strength_checked u req.new_password
          (validate_password_strength unicode (codes req.new_password)) w

  unfoldable pub change_password :
      String → Option ChangePasswordRequest → World Tables → Response (Unit {0})
  change_password caller none w = fail 400 "invalid request body" w
  change_password caller (some req) w =
      if req.current_password == "" || req.new_password == ""
      then fail 400 "current_password and new_password are required" w
      else change_found req (get_user_by_id caller w)
