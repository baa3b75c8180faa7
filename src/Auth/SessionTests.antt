-- ===== src/Auth/SessionTests.antt =====
-- A login whose token opens a route, and a change of the password.
use agentlens.Common.{
  ◌≤◌, ◌<◌, String, ◌≡◌, ◌≢◌, refl, sym, ap, inl, inr, Bool, true, false, ◌&&◌, Option, none, some,
  List, [], ◌∷◌, ◌++◌, find?, leb, ltb, eqb, Bool-cases, Text, codes, ◌==◌, eq_iff, if◌then◌else◌,
  arith,
}
use agentlens.Sql.{World, calm, ◌>>=◌, context, attempt}
use agentlens.Tables.{Role, User, Tables}
use agentlens.Party.Permission.{has_permission}
use agentlens.Auth.Password.{Unicode}
use agentlens.Auth.Hashing.{hashed}
use agentlens.Auth.Users.{get_by_username, reset_failed_attempts, update_last_login, get_role_by_id}
use agentlens.Auth.Login.{LoginResponse, signed_in, login}
use agentlens.Auth.Sessions.{
  JwtConfig, Claims, Jwt, claims_of, permissions_of, generate_token, bearer, require_auth,
  require_permission, admitted, denied, ChangePasswordRequest, change_password,
}
use agentlens.Auth.Tokens.{IsJwt, require_permission-login}
use agentlens.Auth.Changes.{IsChange, change_password-IsChange}

abbrev viewer : Role
viewer = record {
  id = "r1";
  name = "viewer";
  description = "";
  permissions = "catalog:read" ∷ [];
  is_system = true;
}

abbrev cat : User
cat = record {
  id = "u1";
  username = "cat";
  email = "";
  display_name = "Cat";
  password_hash = "right";
  role_id = "r1";
  is_active = true;
  last_login = none;
  failed_attempts = 0;
  locked_until = none;
}

abbrev office : Tables
office = record {
  users = cat ∷ [];
  roles = viewer ∷ [];
  parties = [];
  relationships = [];
  closures = [];
  global_roles = [];
  memberships = [];
}

abbrev config : JwtConfig
config = record { secret = "key"; expiration = 5000000000; refresh_window = 1000 }

abbrev cat_claims : Claims
cat_claims = record {
  user_id = "u1";
  username = "cat";
  role_id = "r1";
  permissions = "catalog:read" ∷ [];
  expires_at = 5000000010;
  issued_at = 10;
  not_before = 10;
  issuer = "agentlens";
  subject = "u1";
}

abbrev same_texts : List String → List String → Bool
same_texts [] [] = true
same_texts (s ∷ ss) (t ∷ ts) = s == t && same_texts ss ts
same_texts _ _ = false

same_texts-true : (ss ts : List String) → same_texts ss ts ≡ true → ss ≡ ts
same_texts-true [] [] h = refl
same_texts-true [] (t ∷ ts) h = cc
same_texts-true (s ∷ ss) [] h = cc
same_texts-true (s ∷ ss) (t ∷ ts) h = ground (arith, eq_iff s t, same_texts-true ss ts)

abbrev same_claims : Claims → Claims → Bool
same_claims c d =
    (c.user_id == d.user_id && c.username == d.username && c.role_id == d.role_id)
    && (same_texts c.permissions d.permissions && c.issuer == d.issuer && c.subject == d.subject)
    && (eqb c.expires_at d.expires_at
        && eqb c.issued_at d.issued_at
        && eqb c.not_before d.not_before)

same_claims-true : (c d : Claims) → same_claims c d ≡ true → c ≡ d
same_claims-true c d h = ground (
  arith,
  eq_iff c.user_id d.user_id,
  eq_iff c.username d.username,
  eq_iff c.role_id d.role_id,
  same_texts-true c.permissions d.permissions,
  eq_iff c.issuer d.issuer,
  eq_iff c.subject d.subject,
)

-- A package that signs the claims of one session only.
abbrev one_session : Jwt
one_session = record {
  numeric_date = λ t. t;
  sign = λ c key. if same_claims c cat_claims then some (codes "t0k3n") else none;
  parse = λ now token key. if leb 10 now && ltb now 5000000010 then some cat_claims else none;
}

one_session-filled :
    (c : Claims) (token : Text) → one_session.sign c "key" ≡ some token → token ≢ []
one_session-filled c token h e = elim (Bool-cases (same_claims c cat_claims)) [
  | inl same ↦ let signed = rw same at h in cc
  | inr other ↦ let clash = rw other at h in cc
]

one_session-IsJwt : IsJwt one_session
one_session-IsJwt = record {
  cut = λ t. (omega arith, omega arith);
  filled = λ c key token h. one_session-filled c token h;
  accepted = λ c key token now h from to. elim (Bool-cases (same_claims c cat_claims)) [
    | inl same ↦
        let it = same_claims-true c cat_claims same in
        let begins : 10 ≤ now = rw it at from in
        let ends : now < 5000000010 = rw it at to in
        let lives : (leb 10 now && ltb now 5000000010) ≡ true = ground arith in
        rw lives (ap some (sym it))
    | inr other ↦ let clash = rw other at h in cc
  ];
}

abbrev match : String → String → Bool
match password hash = password == hash

abbrev session : LoginResponse × World Tables
session =
    login match (generate_token one_session config 10) 10 (some ("cat", "right")) (calm office)

signed_run : session ≡ (signed_in (codes "t0k3n") cat, session.1)
unfolding login generate_token get_by_username reset_failed_attempts update_last_login
    get_role_by_id ◌>>=◌ context attempt
signed_run = refl

require_permission-login_example :
    require_permission "catalog:read" (
      require_auth one_session config 1000000000
        (record { authorization = bearer ++ codes "t0k3n"; cookie = none }))
    ≡ (if has_permission
          (permissions_of (find? (λ r. r.id == "r1") session.1.tables.roles))
          "catalog:read"
        then admitted
            (claims_of one_session config 10 cat (find? (λ r. r.id == "r1") session.1.tables.roles))
        else denied 403 "insufficient permissions")
require_permission-login_example =
    require_permission-login one_session config one_session-IsJwt match 10 1000000000
      (some ("cat", "right")) (calm office) session.1 (codes "t0k3n") cat none "catalog:read"
      signed_run (omega arith) (omega arith)

abbrev plain_ascii : Unicode
plain_ascii = record {
  is_upper = λ r. leb 65 r && leb r 90;
  is_lower = λ r. leb 97 r && leb r 122;
  is_digit = λ r. leb 48 r && leb r 57;
  is_punct = λ r. leb 33 r && leb r 47;
  is_symbol = λ r. false;
}

abbrev change : Option ChangePasswordRequest
change = some (record { current_password = "right"; new_password = "Secret-1234" })

change_password-IsChange_example :
    IsChange plain_ascii match
      (λ p. hashed "hash")
      "u1"
      change
      office
      (change_password plain_ascii match (λ p. hashed "hash") "u1" change (calm office))
change_password-IsChange_example =
    change_password-IsChange plain_ascii match (λ p. hashed "hash") "u1" change (calm office)
