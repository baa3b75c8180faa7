-- ===== src/Auth/Hashing.antt =====
-- HashPassword of internal/auth/password.go, around bcrypt.
use agentlens.Common.{String, Option, none, some, Text, codes, ◌++◌}
use agentlens.Auth.Password.{Unicode, validate_password_strength}

-- The hash of a password, or the text of the error.
pub data Hashed : Type 0 where
  hashed : String → Hashed
  rejected : Text → Hashed

abbrev pub bcrypt_hash : Hashed → Hashed
bcrypt_hash (hashed hash) = hashed hash
bcrypt_hash (rejected err) = rejected (codes "hashing password: " ++ err)

module _ (unicode : Unicode) (bcrypt : Text → Hashed) where
  abbrev pub hash_checked : Text → Option String → Hashed
  hash_checked password (some weak) = rejected (codes "validating password: " ++ codes weak)
  hash_checked password none = bcrypt_hash (bcrypt password)

  unfoldable pub hash_password : Text → Hashed
  hash_password password = hash_checked password (validate_password_strength unicode password)
