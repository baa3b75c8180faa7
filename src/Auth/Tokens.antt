-- ===== src/Auth/Tokens.antt =====
-- A token that a login hands out opens the routes of its role until it expires.
use agentlens.Common.{
  ℕ, ◌+◌, ◌≤◌, ◌<◌, String, ◌≡◌, ◌≢◌, refl, sym, ap, ◌∙◌, inl, inr, Bool, true, false, not, ◌||◌,
  Option, none, some, [], ◌∷◌, ◌++◌, starts_with, find?, Bool-cases, if◌then◌else◌, ◌==◌, Text,
  arith,
}
use agentlens.Sql.{World, Outcome, done, raised, world}
use agentlens.Sql.Laws.{statement-done, context-done, run-cases}
use agentlens.Tables.{Role, User, Tables}
use agentlens.Party.Permission.{has_permission}
use agentlens.Auth.Users.{get_by_username, get_role_by_id, reset_failed_attempts, update_last_login}
use agentlens.Auth.Login.{
  LoginResponse, signed_in, refused, is_locked, token_answer, role_answer, authenticated,
  login_found, login,
}
use agentlens.Auth.Sessions.{
  JwtConfig, Claims, Jwt, permissions_of, claims_of, generate_token, validate_token, bearer,
  or_cookie, token_of, Admission, denied, admitted, claims_admitted, token_admitted, require_auth,
  require_permission,
}

abbrev pub second_ns : ℕ
second_ns = 1000000000

-- What the package jwt documents: dates are cut to the second, a token is not empty, and a token is
-- accepted with its claims from its first date on and before its last.
pub record IsJwt (jwt : Jwt) : Type 0 where
  pub cut : (t : ℕ) → (jwt.numeric_date t ≤ t) × (t < jwt.numeric_date t + second_ns)
  pub filled : (c : Claims) (key : String) (token : Text) → jwt.sign c key ≡ some token → token ≢ []
  pub accepted :
      (c : Claims) (key : String) (token : Text) (now : ℕ)
      → jwt.sign c key ≡ some token
      → c.not_before ≤ now
      → now < c.expires_at
      → jwt.parse now token key ≡ some c

bearer_token : (token : Text) → starts_with (bearer ++ token) bearer ≡ true
bearer_token token = refl

module _ (jwt : Jwt) (cfg : JwtConfig) (laws : IsJwt jwt) where
  token_admitted-filled :
      (now : ℕ) (token : Text)
      → token ≢ []
      → token_admitted jwt cfg now token ≡ claims_admitted (validate_token jwt cfg now token)
  token_admitted-filled now [] h = let never = h refl in elim never [ ]
  token_admitted-filled now (c ∷ cs) h = refl

  or_cookie-filled :
      (token : Text) (cookie : Option Text) → token ≢ [] → or_cookie token cookie ≡ token
  or_cookie-filled [] cookie h = let never = h refl in elim never [ ]
  or_cookie-filled (c ∷ cs) cookie h = refl

  -- A token of GenerateToken is admitted while it lives.
  generated-admitted :
      (made now : ℕ) (u : User) (role : Option Role) (token : Text) (cookie : Option Text)
      → generate_token jwt cfg made u role ≡ some token
      → made ≤ now
      → now + second_ns ≤ made + cfg.expiration
      → require_auth jwt cfg now (record { authorization = bearer ++ token; cookie = cookie })
        ≡ admitted (claims_of jwt cfg made u role)
  unfolding generate_token require_auth token_of validate_token
  generated-admitted made now u role token cookie signed after before =
      let first = laws.cut made in
      let last = laws.cut (made + cfg.expiration) in
      let filled = laws.filled (claims_of jwt cfg made u role) cfg.secret token signed in
      ap (token_admitted jwt cfg now) (or_cookie-filled token cookie filled)
      ∙ token_admitted-filled now token filled
      ∙ ap claims_admitted (
          laws.accepted (claims_of jwt cfg made u role) cfg.secret token now signed (omega arith)
            (omega arith))

  -- A login that hands out a token has read the role that is in it.
  abbrev IsSigned : ℕ → LoginResponse × World Tables → Type 0
  IsSigned now (refused status, w) = Unit
  IsSigned now (signed_in token u, w) =
      generate_token jwt cfg now u (find? (λ r. r.id == u.role_id) w.tables.roles) ≡ some token

  role_read :
      (id : String) (role : Option Role) (w v : World Tables)
      → get_role_by_id id w ≡ done role v
      → role ≡ find? (λ r. r.id == id) v.tables.roles
  unfolding get_role_by_id
  role_read id role w v h =
      let (read, same) = statement-done _ w role v (context-done _ _ w v role h) in
      sym read ∙ ap (λ (t : Tables). find? (λ r. r.id == id) t.roles) same

  answer-IsSigned :
      (now : ℕ) (u : User) (role : Option Role) (o : Option Text) (v : World Tables)
      → role ≡ find? (λ r. r.id == u.role_id) v.tables.roles
      → generate_token jwt cfg now u role ≡ o
      → IsSigned now (token_answer u o, v)
  answer-IsSigned now u role none v read made = tt
  answer-IsSigned now u role (some token) v read made =
      ap (generate_token jwt cfg now u) (sym read) ∙ made

  authenticated-IsSigned :
      (check : String → String → Bool) (now : ℕ) (u : User) (w : World Tables)
      → IsSigned now (authenticated check (generate_token jwt cfg now) now u w)
  authenticated-IsSigned check now u w =
      run-cases (IsSigned now) (get_role_by_id u.role_id)
        (role_answer check (generate_token jwt cfg now) u)
        (world (update_last_login now u.id (world (reset_failed_attempts u.id w))))
        (λ role v h.
          answer-IsSigned now u role (generate_token jwt cfg now u role) v
            (role_read u.role_id role _ v h) refl)
        λ e v h. tt

  found-IsSigned :
      (check : String → String → Bool) (now : ℕ) (password : String)
      (o : Outcome Tables (Option User))
      → IsSigned now (login_found check (generate_token jwt cfg now) now password o)
  found-IsSigned check now password (raised e w) = tt
  found-IsSigned check now password (done none w) = tt
  found-IsSigned check now password (done (some u) w) = elim (Bool-cases (not u.is_active)) [
    | inl disabled ↦ rw disabled tt
    | inr enabled ↦ rw enabled (elim (Bool-cases (is_locked now u)) [
      | inl locked ↦ rw locked tt
      | inr open_now ↦ rw open_now (elim (Bool-cases (not (check password u.password_hash))) [
        | inl wrong ↦ rw wrong tt
        | inr right ↦ rw right (authenticated-IsSigned check now u w)
      ])
    ])
  ]

  login-IsSigned :
      (check : String → String → Bool) (now : ℕ) (body : Option (String × String))
      (w : World Tables)
      → IsSigned now (login check (generate_token jwt cfg now) now body w)
  unfolding login
  login-IsSigned check now none w = tt
  login-IsSigned check now (some (username, password)) w =
      elim (Bool-cases (username == "" || password == "")) [
        | inl missing ↦ rw missing tt
        | inr given ↦ rw given (found-IsSigned check now password (get_by_username username w))
      ]

  -- Whichever statements fail, under the laws of the package jwt: a token that Login hands out at a
  -- time, sent as a bearer token from that time on and until a second before its expiration, is
  -- admitted by RequireAuth with the claims of the user, and RequirePermission lets it through exactly
  -- if the permission is one of those that the user's role had at the login.
  pub require_permission-login :
      (check : String → String → Bool) (made now : ℕ) (body : Option (String × String))
      (w v : World Tables) (token : Text) (u : User) (cookie : Option Text) (perm : String)
      → login check (generate_token jwt cfg made) made body w ≡ (signed_in token u, v)
      → made ≤ now
      → now + second_ns ≤ made + cfg.expiration
      → require_permission perm
          (require_auth jwt cfg now (record { authorization = bearer ++ token; cookie = cookie }))
        ≡ (if has_permission (permissions_of (find? (λ r. r.id == u.role_id) v.tables.roles)) perm
            then admitted (claims_of jwt cfg made u (find? (λ r. r.id == u.role_id) v.tables.roles))
            else denied 403 "insufficient permissions")
  unfolding require_permission
  require_permission-login check made now body w v token u cookie perm signed after before =
      let role = find? (λ r. r.id == u.role_id) v.tables.roles in
      let signing : generate_token jwt cfg made u role ≡ some token =
        rw signed at (login-IsSigned check made body w) in
      ap (require_permission perm)
        (generated-admitted made now u role token cookie signing after before)
      ∙ if_not (has_permission (permissions_of role) perm) _ _
    where
      if_not : (b : Bool) (x y : Admission) → (if not b then x else y) ≡ (if b then y else x)
      if_not true x y = refl
      if_not false x y = refl
