-- ===== src/Auth/Password.antt =====
-- ValidatePasswordStrength of internal/auth/password.go, against the list of its requirements. The
-- classes of the package unicode are a parameter. A password is the list of its runes; its length
-- counts the bytes of their UTF-8 form.
use agentlens.Common.{
  ℕ, ◌+◌, ◌≤◌, String, ◌≡◌, ◌↔◌, ◌∙◌, inl, inr, Bool, true, false, not, ◌&&◌, ◌||◌, Option, none,
  some, [], ◌∷◌, Text, any, any-true, any_of_Member, Member, ltb, Bool-cases, if◌then◌else◌, arith,
}

-- unicode.IsUpper, IsLower, IsDigit, IsPunct and IsSymbol.
pub record Unicode : Type 0 where
  pub is_upper : ℕ → Bool
  pub is_lower : ℕ → Bool
  pub is_digit : ℕ → Bool
  pub is_punct : ℕ → Bool
  pub is_symbol : ℕ → Bool

-- The bytes of a rune in UTF-8.
abbrev pub rune_len : ℕ → ℕ
rune_len r = if ltb r 128 then 1 else if ltb r 2048 then 2 else if ltb r 65536 then 3 else 4

abbrev pub byte_length : Text → ℕ
byte_length [] = 0
byte_length (r ∷ rs) = rune_len r + byte_length rs

abbrev pub min_password_length : ℕ
min_password_length = 10

-- hasUpper, hasLower, hasDigit and hasSpecial.
pub record Flags : Type 0 where
  pub has_upper : Bool
  pub has_lower : Bool
  pub has_digit : Bool
  pub has_special : Bool

abbrev pub no_flags : Flags
no_flags = record { has_upper = false; has_lower = false; has_digit = false; has_special = false }

module _ (unicode : Unicode) where
  -- The switch: the first class that holds.
  abbrev pub seen : ℕ → Flags → Flags
  seen r f =
      if unicode.is_upper r
      then record f { has_upper = true }
      else if unicode.is_lower r
      then record f { has_lower = true }
      else if unicode.is_digit r
      then record f { has_digit = true }
      else if unicode.is_punct r || unicode.is_symbol r
      then record f { has_special = true }
      else f

  unfoldable pub scan : Text → Flags → Flags
  scan [] f = f
  scan (r ∷ rs) f = scan rs (seen r f)

  abbrev pub check_flags : Flags → Option String
  check_flags f =
      if not f.has_upper
      then some "password must contain at least one uppercase letter"
      else if not f.has_lower
      then some "password must contain at least one lowercase letter"
      else if not f.has_digit
      then some "password must contain at least one digit"
      else if not f.has_special
      then some "password must contain at least one special character"
      else none

  -- The error, if there is one.
  unfoldable pub validate_password_strength : Text → Option String
  validate_password_strength password =
      if ltb (byte_length password) min_password_length
      then some "password must be at least 10 characters"
      else check_flags (scan password no_flags)

  abbrev pub is_special : ℕ → Bool
  is_special r =
      not (unicode.is_upper r)
      && not (unicode.is_lower r)
      && not (unicode.is_digit r)
      && (unicode.is_punct r || unicode.is_symbol r)

  abbrev pub is_plain_lower : ℕ → Bool
  is_plain_lower r = not (unicode.is_upper r) && unicode.is_lower r

  abbrev pub is_plain_digit : ℕ → Bool
  is_plain_digit r = not (unicode.is_upper r) && not (unicode.is_lower r) && unicode.is_digit r

  abbrev flags_of : Text → Flags → Flags
  flags_of rs f = record {
    has_upper = f.has_upper || any unicode.is_upper rs;
    has_lower = f.has_lower || any is_plain_lower rs;
    has_digit = f.has_digit || any is_plain_digit rs;
    has_special = f.has_special || any is_special rs;
  }

  scan_lem : (rs : Text) (f : Flags) → scan rs f ≡ flags_of rs f
  unfolding scan
  scan_lem [] f = ground arith
  scan_lem (r ∷ rs) f = scan_lem rs (seen r f) ∙ ground arith

  abbrev Has : (ℕ → Bool) → Text → Type 0
  Has p rs = (r : ℕ) × Member r rs × (p r ≡ true)

  Has-any : (p : ℕ → Bool) (rs : Text) → Has p rs → any p rs ≡ true
  Has-any p rs (r, m, h) = any_of_Member p rs r m h

  check_flags-none :
      (f : Flags)
      → (check_flags f ≡ none) ↔ (
          (f.has_upper ≡ true)
          × (f.has_lower ≡ true)
          × (f.has_digit ≡ true)
          × (f.has_special ≡ true))
  check_flags-none f = ground arith

  -- A password is accepted exactly if its UTF-8 form has at least ten bytes and it has an uppercase
  -- letter, a lowercase letter, a digit and a special character, each a rune whose first class in
  -- this order is that one.
  pub validate_password_strength_iff :
      (password : Text)
      → (validate_password_strength password ≡ none) ↔ (
          (min_password_length ≤ byte_length password)
          × Has unicode.is_upper password
          × Has is_plain_lower password
          × Has is_plain_digit password
          × Has is_special password)
  unfolding validate_password_strength
  validate_password_strength_iff password = (to, from)
    where
      to :
          validate_password_strength password ≡ none
          → (min_password_length ≤ byte_length password)
            × Has unicode.is_upper password
            × Has is_plain_lower password
            × Has is_plain_digit password
            × Has is_special password
      to h = elim (Bool-cases (ltb (byte_length password) min_password_length)) [
        | inl short ↦ let clash = rw short at h in cc
        | inr long ↦
            let (a, b, c, d) =
              (check_flags-none (flags_of password no_flags)).0
                (rw (scan_lem password no_flags) at (rw long at h)) in
            (
              ground arith,
              any-true _ password a,
              any-true _ password b,
              any-true _ password c,
              any-true _ password d,
            )
      ]

      from :
          (min_password_length ≤ byte_length password)
            × Has unicode.is_upper password
            × Has is_plain_lower password
            × Has is_plain_digit password
            × Has is_special password
          → validate_password_strength password ≡ none
      from (long, a, b, c, d) =
          let enough : ltb (byte_length password) min_password_length ≡ false = ground arith in
          rw enough (
            rw (scan_lem password no_flags) (
              (check_flags-none (flags_of password no_flags)).1 (
                Has-any _ password a,
                Has-any _ password b,
                Has-any _ password c,
                Has-any _ password d,
              )))
