-- ===== src/Auth/Bootstrap.antt =====
-- internal/auth/bootstrap.go. The source of randomness is the record Random over a state of its own,
-- a password is the list of its bytes, and `hash` is HashPassword. The map of used positions is the
-- list of them.
use agentlens.Common.{
  ℕ, zero, suc, ◌+◌, ◌%◌, String, Bool, true, none, List, [], ◌∷◌, ◌++◌, length, any, ltb, eqb,
  Text, codes, if◌then◌else◌,
}
use agentlens.Sql.{plain, wrap, M, ◌>>=◌, ◌>>◌, return, raise, context}
use agentlens.Tables.{User, Tables}
use agentlens.Auth.Hashing.{Hashed, hashed, rejected}
use agentlens.Auth.Users.{count_users, create_user}

pub data Drawn (A : Type 0) : Type 0 where
  got : A → Drawn A
  refused : Text → Drawn A

-- `rand.Int(rand.Reader, max)`
pub record Random (R : Type 0) : Type 0 where
  pub int : ℕ → R → Drawn ℕ × R

abbrev pub password_length : ℕ
password_length = 20

abbrev pub upper_chars : Text
upper_chars = codes "ABCDEFGHIJKLMNOPQRSTUVWXYZ"

abbrev pub lower_chars : Text
lower_chars = codes "abcdefghijklmnopqrstuvwxyz"

abbrev pub digit_chars : Text
digit_chars = codes "0123456789"

abbrev pub special_chars : Text
special_chars = codes "!@#$%^&*()"

abbrev pub all_chars : Text
all_chars = upper_chars ++ lower_chars ++ digit_chars ++ special_chars

abbrev pub char_at : ℕ → Text → ℕ
char_at i [] = 0
char_at zero (c ∷ cs) = c
char_at (suc i) (c ∷ cs) = char_at i cs

abbrev pub put_at : ℕ → ℕ → Text → Text
put_at i b [] = []
put_at zero b (c ∷ cs) = b ∷ cs
put_at (suc i) b (c ∷ cs) = c ∷ put_at i b cs

abbrev pub is_used : List ℕ → ℕ → Bool
is_used used pos = any (λ p. eqb p pos) used

-- The loop to a free position, on fuel: every position is one of `password_length`.
unfoldable pub next_free : ℕ → List ℕ → ℕ → ℕ
next_free zero used pos = pos
next_free (suc fuel) used pos =
    let rest = next_free fuel used ((pos + 1) % password_length) in
    if is_used used pos then rest else pos

abbrev pub zeros : ℕ → Text
zeros zero = []
zeros (suc n) = 0 ∷ zeros n

module _ {R : Type 0} (random : Random R) where
  abbrev pub int_checked : Drawn ℕ × R → Drawn ℕ × R
  int_checked (got n, r) = (got n, r)
  int_checked (refused err, r) = (refused (codes "generating random int: " ++ err), r)

  unfoldable pub random_int : ℕ → R → Drawn ℕ × R
  random_int max r = int_checked (random.int max r)

  abbrev pub char_drawn : Text → Drawn ℕ × R → Drawn ℕ × R
  char_drawn charset (got i, r) = (got (char_at i charset), r)
  char_drawn charset (refused err, r) = (refused err, r)

  unfoldable pub random_char : Text → R → Drawn ℕ × R
  random_char charset r = char_drawn charset (random_int (length charset) r)

  -- A character is drawn for each position that is not used.
  abbrev pub put_first : ℕ → Drawn Text × R → Drawn Text × R
  put_first c (got cs, r) = (got (c ∷ cs), r)
  put_first c (refused err, r) = (refused err, r)

  abbrev pub fill_with : (R → Drawn Text × R) → Drawn ℕ × R → Drawn Text × R
  fill_with rest (got c, r) = put_first c (rest r)
  fill_with rest (refused err, r) = (refused err, r)

  unfoldable pub fill_from : ℕ → List ℕ → Text → R → Drawn Text × R
  fill_from i used [] r = (got [], r)
  fill_from i used (b ∷ bs) r =
      if is_used used i
      then put_first b (fill_from (suc i) used bs r)
      else fill_with (λ r. fill_from (suc i) used bs r) (random_char all_chars r)

  abbrev pub char_placed :
      (List ℕ → Text → R → Drawn Text × R) → ℕ → List ℕ → Text → Drawn ℕ × R → Drawn Text × R
  char_placed rest pos used buf (got c, r) = rest (pos ∷ used) (put_at pos c buf) r
  char_placed rest pos used buf (refused err, r) = (refused err, r)

  abbrev pub place_at :
      (List ℕ → Text → R → Drawn Text × R) → Text → List ℕ → Text → Drawn ℕ × R → Drawn Text × R
  place_at rest charset used buf (got pos, r) =
      char_placed rest (next_free password_length used pos) used buf (random_char charset r)
  place_at rest charset used buf (refused err, r) = (refused err, r)

  -- One character of each charset, then the others.
  unfoldable pub place_all : List Text → List ℕ → Text → R → Drawn Text × R
  place_all [] used buf r = fill_from 0 used buf r
  place_all (charset ∷ charsets) used buf r =
      place_at (λ used buf r. place_all charsets used buf r) charset used buf
        (random_int password_length r)

  unfoldable pub generate_password : R → Drawn Text × R
  generate_password r =
      place_all (upper_chars ∷ lower_chars ∷ digit_chars ∷ special_chars ∷ []) []
        (zeros password_length) r

abbrev pub admin_user : String → String → User
admin_user fresh hash = record {
  id = fresh;
  username = "admin";
  email = "";
  display_name = "Administrator";
  password_hash = hash;
  role_id = "role-admin";
  is_active = true;
  last_login = none;
  failed_attempts = 0;
  locked_until = none;
}

module _ {R : Type 0} (random : Random R) (hash : Text → Hashed) (fresh : String) where
  abbrev pub create_admin : Text → Hashed → M Tables Text
  create_admin password (rejected err) = raise (wrap (codes "hashing admin password") (plain err))
  create_admin password (hashed h) =
      context "creating admin user" (create_user (admin_user fresh h)) >> return password

  abbrev pub with_password : Drawn Text → M Tables Text
  with_password (refused err) = raise (wrap (codes "generating password") (plain err))
  with_password (got password) = create_admin password (hash password)

  abbrev pub bootstrap_counted : R → ℕ → M Tables Text
  bootstrap_counted r count =
      if ltb 0 count then return [] else with_password (generate_password random r).0

  unfoldable pub bootstrap_admin : R → M Tables Text
  bootstrap_admin r = context "counting users" count_users >>= bootstrap_counted r
