-- ===== src/Auth/Generated.antt =====
-- A generated password passes the check of passwords.
mod Tests
use agentlens.Common.{
  ℕ, zero, suc, ◌+◌, ◌%◌, ◌≤◌, ◌<◌, String, ◌≡◌, ◌≢◌, refl, sym, subst, ap, ◌∙◌, ◌⊎◌, inl, inr,
  Bool, true, false, not, ◌||◌, ◌&&◌, Option, none, some, List, [], ◌∷◌, ◌++◌, length, any, ltb,
  eqb, eqb_iff, Bool-cases, if_true, if_false, Text, codes, Member, All, if◌then◌else◌, arith,
}
use agentlens.Auth.Password.{
  Unicode, rune_len, byte_length, validate_password_strength, is_plain_lower, is_plain_digit,
  is_special, validate_password_strength_iff,
}
use agentlens.Auth.Bootstrap.{
  Drawn, got, refused, Random, password_length, char_at, put_at, is_used, next_free, zeros,
  int_checked, random_int, char_drawn, upper_chars, lower_chars, digit_chars, special_chars,
  random_char, put_first, fill_with, fill_from, char_placed, place_at, place_all, generate_password,
  all_chars,
}

-- Three positions at most are used, and four that follow one another differ.
free_of :
    (n : ℕ) (used : List ℕ) (pos : ℕ)
    → length used ≤ 3
    → pos < 20
    → (is_used used (next_free (suc (suc (suc (suc n)))) used pos) ≡ false)
      × (next_free (suc (suc (suc (suc n)))) used pos < 20)
unfolding next_free
free_of n [] pos few inside = ground arith
free_of n (a ∷ []) pos few inside = ground arith
free_of n (a ∷ b ∷ []) pos few inside = ground arith
free_of n (a ∷ b ∷ c ∷ []) pos few inside = ground arith
free_of n (a ∷ b ∷ c ∷ d ∷ used) pos few inside = let never : ⊥ = omega arith in elim never [ ]

char_at-Member : (i : ℕ) (cs : Text) → i < length cs → Member (char_at i cs) cs
char_at-Member i [] h = omega arith
char_at-Member zero (c ∷ cs) h = inl refl
char_at-Member (suc i) (c ∷ cs) h = inr (char_at-Member i cs (omega arith))

length-put_at : (i b : ℕ) (cs : Text) → length (put_at i b cs) ≡ length cs
length-put_at i b [] = refl
length-put_at zero b (c ∷ cs) = refl
length-put_at (suc i) b (c ∷ cs) = ap suc (length-put_at i b cs)

char_at-put_at : (i b : ℕ) (cs : Text) → i < length cs → char_at i (put_at i b cs) ≡ b
char_at-put_at i b [] h = omega arith
char_at-put_at zero b (c ∷ cs) h = refl
char_at-put_at (suc i) b (c ∷ cs) h = char_at-put_at i b cs (omega arith)

char_at-put_at_other : (i j b : ℕ) (cs : Text) → i ≢ j → char_at j (put_at i b cs) ≡ char_at j cs
char_at-put_at_other i j b [] h = refl
char_at-put_at_other zero zero b (c ∷ cs) h = let never = h refl in elim never [ ]
char_at-put_at_other zero (suc j) b (c ∷ cs) h = refl
char_at-put_at_other (suc i) zero b (c ∷ cs) h = refl
char_at-put_at_other (suc i) (suc j) b (c ∷ cs) h =
    char_at-put_at_other i j b cs (λ e. h (ap suc e))

length_le_bytes : (cs : Text) → length cs ≤ byte_length cs
length_le_bytes [] = omega arith
length_le_bytes (c ∷ cs) =
    let rest = length_le_bytes cs in let one : 1 ≤ rune_len c = ground arith in omega arith

abbrev pub every : (ℕ → Bool) → Text → Bool
every p [] = true
every p (c ∷ cs) = p c && every p cs

every-Member : (p : ℕ → Bool) (cs : Text) (c : ℕ) → every p cs ≡ true → Member c cs → p c ≡ true
every-Member p [] c h m = elim m [ ]
every-Member p (x ∷ cs) c h m = ground (arith, every-Member p cs c)

-- The package unicode on the characters of the sets.
pub record KnowsAscii (unicode : Unicode) : Type 0 where
  pub upper : every unicode.is_upper upper_chars ≡ true
  pub lower : every (is_plain_lower unicode) lower_chars ≡ true
  pub digit : every (is_plain_digit unicode) digit_chars ≡ true
  pub special : every (is_special unicode) special_chars ≡ true

-- The source of randomness gives numbers below the bound, and does not fail.
abbrev pub IsFair : {R : Type 0} → Random R → Type 0
IsFair {R} random =
    (max : ℕ) (r : R)
    → 0 < max
    → (n : ℕ) × ((n < max) × ((s : R) × (random.int max r ≡ (got n, s))))

module _ {R : Type 0} (random : Random R) (fair : IsFair random) where
  random_int-below :
      (max : ℕ) (r : R)
      → 0 < max
      → (n : ℕ) × ((n < max) × ((s : R) × (random_int random max r ≡ (got n, s))))
  unfolding random_int
  random_int-below max r h =
      let (n, (below, (s, drawn))) = fair max r h in
      (n, (below, (s, ap (int_checked random) drawn)))

  random_char-Member :
      (charset : Text) (r : R)
      → 0 < length charset
      → (c : ℕ) × (Member c charset × ((s : R) × (random_char random charset r ≡ (got c, s))))
  unfolding random_char
  random_char-Member charset r h =
      let (i, (below, (s, drawn))) = random_int-below (length charset) r h in
      (
        char_at i charset,
        (char_at-Member i charset below, (s, ap (char_drawn random charset) drawn)),
      )

  -- The used positions keep their characters.
  abbrev IsFilled : ℕ → List ℕ → Text → Drawn Text × R → Type 0
  IsFilled i used buf o =
      (cs : Text) × ((s : R) × ((o ≡ (got cs, s))
          × ((length cs ≡ length buf)
              × ((j : ℕ) → is_used used (i + j) ≡ true → char_at j cs ≡ char_at j buf))))

  put_first-IsFilled :
      (i b c : ℕ) (used : List ℕ) (bs : Text) (o : Drawn Text × R)
      → (is_used used i ≡ true → c ≡ b)
      → IsFilled (suc i) used bs o
      → IsFilled i used (b ∷ bs) (put_first random c o)
  put_first-IsFilled i b c used bs o same (cs, (s, (e, (l, kept)))) =
      (c ∷ cs, (s, (ap (put_first random c) e, (ap suc l, keeps))))
    where
      keeps : (j : ℕ) → is_used used (i + j) ≡ true → char_at j (c ∷ cs) ≡ char_at j (b ∷ bs)
      keeps zero h = same (ap (is_used used) (omega arith) ∙ h)
      keeps (suc j) h = kept j (ap (is_used used) (omega arith) ∙ h)

  fill_from-IsFilled :
      (i : ℕ) (used : List ℕ) (buf : Text) (r : R)
      → IsFilled i used buf (fill_from random i used buf r)
  unfolding fill_from
  fill_from-IsFilled i used [] r = ([], (r, (refl, (refl, λ j h. refl))))
  fill_from-IsFilled i used (b ∷ bs) r = elim (Bool-cases (is_used used i)) [
    | inl taken ↦ rw taken (
        put_first-IsFilled i b b used bs (fill_from random (suc i) used bs r) (λ h. refl)
          (fill_from-IsFilled (suc i) used bs r))
    | inr free ↦
        let (c, (m, (s, drawn))) = random_char-Member all_chars r (omega arith) in
        rw free (
          rw drawn (
            put_first-IsFilled i b c used bs (fill_from random (suc i) used bs s)
              (λ h. let clash = sym h ∙ free in cc) (fill_from-IsFilled (suc i) used bs s)))
  ]

  -- The password holds a character of the set.
  abbrev pub HasChar : Text → Text → Type 0
  HasChar cs charset = (c : ℕ) × (Member c charset × Member c cs)

  IsPlaced : List Text → List ℕ → Text → Drawn Text × R → Type 0
  IsPlaced charsets used buf o =
      (cs : Text) × ((s : R) × ((o ≡ (got cs, s))
          × ((length cs ≡ length buf)
              × (All (HasChar cs) charsets
                  × ((j : ℕ) → is_used used j ≡ true → char_at j cs ≡ char_at j buf)))))

  place_step :
      (charset : Text) (charsets : List Text) (used : List ℕ) (buf : Text) (pos c : ℕ)
      (o : Drawn Text × R)
      → is_used used pos ≡ false
      → pos < length buf
      → Member c charset
      → IsPlaced charsets (pos ∷ used) (put_at pos c buf) o
      → IsPlaced (charset ∷ charsets) used buf o
  unfolding IsPlaced
  place_step charset charsets used buf pos c o free inside m (cs, (s, (e, (l, (all, kept))))) =
      (cs, (s, (e, (l ∙ length-put_at pos c buf, (((c, (m, there)), all), keeps)))))
    where
      here : char_at pos cs ≡ c
      here = kept pos (ground (arith, eqb_iff pos pos)) ∙ char_at-put_at pos c buf inside

      there : Member c cs
      there =
          subst (λ x. Member x cs) here
            (char_at-Member pos cs (let same = l ∙ length-put_at pos c buf in omega arith))

      keeps : (j : ℕ) → is_used used j ≡ true → char_at j cs ≡ char_at j buf
      keeps j h =
          kept j (ground arith)
          ∙ char_at-put_at_other pos j c buf
              (λ e. let clash = sym h ∙ ap (is_used used) (sym e) ∙ free in cc)

  place_all-IsPlaced :
      (charsets : List Text) (used : List ℕ) (buf : Text) (r : R)
      → length buf ≡ password_length
      → length used + length charsets ≤ 4
      → All (λ charset. 0 < length charset) charsets
      → IsPlaced charsets used buf (place_all random charsets used buf r)
  unfolding place_all IsPlaced
  place_all-IsPlaced [] used buf r size few full =
      let (cs, (s, (e, (l, kept)))) = fill_from-IsFilled 0 used buf r in
      (cs, (s, (e, (l, (tt, λ j h. kept j (ap (is_used used) (omega arith) ∙ h))))))
  place_all-IsPlaced (charset ∷ charsets) used buf r size few (full, rest) =
      let (n, (below, (s, drawn))) = random_int-below password_length r (omega arith) in
      let (free, inside) = free_of 16 used n (omega arith) below in
      let pos = next_free password_length used n in
      let (c, (m, (t, picked))) = random_char-Member charset s full in
      let ran : place_all random (charset ∷ charsets) used buf r
          ≡ place_all random charsets (pos ∷ used) (put_at pos c buf) t =
        ap (place_at random (λ used buf r. place_all random charsets used buf r) charset used buf)
          drawn
        ∙ ap (char_placed random (λ used buf r. place_all random charsets used buf r) pos used buf)
            picked in
      subst (IsPlaced (charset ∷ charsets) used buf) (sym ran) (
        place_step charset charsets used buf pos c _ free (omega (arith, size, inside)) m (
          place_all-IsPlaced charsets (pos ∷ used) (put_at pos c buf) t
            (length-put_at pos c buf ∙ size) (omega arith) rest))

  length-zeros : (n : ℕ) → length (zeros n) ≡ n
  length-zeros zero = refl
  length-zeros (suc n) = ap suc (length-zeros n)

  HasChar-of :
      (p : ℕ → Bool) (cs charset : Text)
      → every p charset ≡ true
      → HasChar cs charset
      → (c : ℕ) × Member c cs × (p c ≡ true)
  HasChar-of p cs charset h (c, (m, n)) = (c, n, every-Member p charset c h m)

  -- Where the package unicode knows the ASCII characters and the source of randomness gives numbers
  -- below the bound that it is asked for, generatePassword returns, from every state of the source,
  -- a password of 20 characters that ValidatePasswordStrength accepts.
  pub generate_password-validate :
      (unicode : Unicode) (r : R)
      → KnowsAscii unicode
      → (password : Text) × ((s : R) × ((generate_password random r ≡ (got password, s))
            × ((length password ≡ password_length)
                × (validate_password_strength unicode password ≡ none))))
  unfolding generate_password IsPlaced
  generate_password-validate unicode r known =
      let (cs, (s, (e, (l, ((upper, (lower, (digit, (special, rest)))), kept))))) =
        place_all-IsPlaced (upper_chars ∷ lower_chars ∷ digit_chars ∷ special_chars ∷ []) []
          (zeros password_length) r (length-zeros password_length) (omega arith)
          (omega arith, (omega arith, (omega arith, (omega arith, tt)))) in
      let size : length cs ≡ password_length = l ∙ length-zeros password_length in
      let bytes = length_le_bytes cs in
      (
        cs,
        (
          s,
          (
            e,
            (
              size,
              (validate_password_strength_iff unicode cs).1 (
                omega (arith, size, bytes),
                HasChar-of unicode.is_upper cs upper_chars known.upper upper,
                HasChar-of (is_plain_lower unicode) cs lower_chars known.lower lower,
                HasChar-of (is_plain_digit unicode) cs digit_chars known.digit digit,
                HasChar-of (is_special unicode) cs special_chars known.special special,
              ),
            ),
          ),
        ),
      )
