-- ===== src/Auth/Tests.antt =====
-- Runs of the login and of the password rules.
use agentlens.Common.{
  ℕ, ◌≤◌, String, ◌≡◌, ◌≢◌, ◌↔◌, refl, Bool, true, false, ◌&&◌, Option, none, some, List, [], ◌∷◌,
  leb, Text, codes, Member, ◌==◌, eq_iff, arith,
}
use agentlens.Sql.{calm, ◌>>=◌, context, attempt, transaction}
use agentlens.Tables.{Role, User, Tables}
use agentlens.Auth.Password.{
  Unicode, byte_length, min_password_length, validate_password_strength, scan, is_special,
  is_plain_lower, is_plain_digit, validate_password_strength_iff,
}
use agentlens.Auth.Users.{
  get_by_username, increment_failed_attempts, reset_failed_attempts, update_last_login,
  get_role_by_id,
}
use agentlens.Auth.Login.{refused, signed_in, login}
use agentlens.Auth.Lockout.{logins, attempt_login, fifth_failure_locks}

-- The classes of the ASCII runes.
abbrev ascii : Unicode
ascii = record {
  is_upper = λ r. leb 65 r && leb r 90;
  is_lower = λ r. leb 97 r && leb r 122;
  is_digit = λ r. leb 48 r && leb r 57;
  is_punct = λ r. leb 33 r && leb r 47;
  is_symbol = λ r. false;
}

abbrev good : Text
good = codes "Secret-123"

password_tests :
    (validate_password_strength ascii good ≡ none)
    × (validate_password_strength ascii (codes "Secret-12")
        ≡ some "password must be at least 10 characters")
    × (validate_password_strength ascii (codes "secret-1234")
        ≡ some "password must contain at least one uppercase letter")
    × (validate_password_strength ascii (codes "SECRET-1234")
        ≡ some "password must contain at least one lowercase letter")
    × (validate_password_strength ascii (codes "Secret-pass")
        ≡ some "password must contain at least one digit")
    × (validate_password_strength ascii (codes "Secret12345")
        ≡ some "password must contain at least one special character")
unfolding validate_password_strength scan
password_tests = (refl, refl, refl, refl, refl, refl)

validate_password_strength_iff_example : (validate_password_strength ascii good ≡ none) ↔ (
    (min_password_length ≤ byte_length good)
    × ((r : ℕ) × Member r good × (ascii.is_upper r ≡ true))
    × ((r : ℕ) × Member r good × (is_plain_lower ascii r ≡ true))
    × ((r : ℕ) × Member r good × (is_plain_digit ascii r ≡ true))
    × ((r : ℕ) × Member r good × (is_special ascii r ≡ true)))
validate_password_strength_iff_example = validate_password_strength_iff ascii good

-- A hash that is the password.
abbrev same : String → String → Bool
same password hash = password == hash

abbrev token : User → Option Role → Option Text
token u role = some (codes "token")

abbrev ann : User
ann = record {
  id = "u1";
  username = "ann";
  email = "";
  display_name = "Ann";
  password_hash = "right";
  role_id = "r1";
  is_active = true;
  last_login = none;
  failed_attempts = 2;
  locked_until = none;
}

abbrev accounts : Tables
accounts = record {
  users = record ann { id = "u2"; username = "bob" } ∷ ann ∷ [];
  roles = [];
  parties = [];
  relationships = [];
  closures = [];
  global_roles = [];
  memberships = [];
}

runs : Unit {0}
unfolding login logins get_by_username increment_failed_attempts reset_failed_attempts
    update_last_login get_role_by_id ◌>>=◌ context attempt transaction
runs = tt

abbrev guesses : List (ℕ × String)
guesses = (10, "a") ∷ (11, "b") ∷ []

login_tests :
    ((login same token 10 (some ("ann", "right")) (calm accounts)).0
      ≡ signed_in (codes "token") ann)
    × ((login same token 10 (some ("ann", "wrong")) (calm accounts)).0 ≡ refused 401)
    × ((login same token 10 (some ("eve", "right")) (calm accounts)).0 ≡ refused 401)
    × ((login same token 10 none (calm accounts)).0 ≡ refused 400)
unfolding runs
login_tests = (refl, refl, refl, refl)

different : (a b : String) → a == b ≡ false → a ≢ b
different a b h e = ground (arith, eq_iff a b)

fifth_failure_locks_example :
    let w =
      (attempt_login same token "ann" "right"
        (different "ann" "" refl)
        (12, "c")
        (logins same token "ann" "right" (different "ann" "" refl) guesses (calm accounts))).1 in
    login same token 13 (some ("ann", "right")) w ≡ (refused 423, w)
fifth_failure_locks_example =
    fifth_failure_locks same token "ann" "right" (different "ann" "" refl) ann accounts guesses 12
      "c" 13 "right" refl refl refl refl refl refl
      ((different "a" "" refl, refl), ((different "b" "" refl, refl), tt))
      (different "c" "" refl, refl) refl (different "right" "" refl) (omega arith)
