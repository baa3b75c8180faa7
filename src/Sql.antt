-- ===== src/Sql.antt =====
-- The shape of the store methods of internal/store: a sequence of SQL statements over the tables,
-- each of which may fail, and `gorm`'s `Transaction`, which undoes everything when the function
-- that it is given returns an error.
-- Whether a statement fails is the environment's choice: `faults` lists it for the statements to
-- come, with the driver's text for a failure. A statement on an exhausted list succeeds.
pub mod Laws
pub mod Keeps
use agentlens.Common.{
  String, List, [], ◌∷◌, ◌++◌, Option, none, some, Text, codes, Bool, true, false,
}

-- A Go `error`: one from the driver, one that `fmt.Errorf` makes (`"text: %w"`, `"%w: text"`, or
-- with no other error inside), and the package's sentinels.
pub data Error : Type 0 where
  database : Text → Error
  wrap : Text → Error → Error
  detail : Error → Text → Error
  plain : Text → Error
  entry_not_found : Error
  member_not_found : Error

-- `err.Error()`
abbrev pub message : Error → Text
message (database cause) = cause
message (wrap context e) = context ++ codes ": " ++ message e
message (detail e text) = message e ++ codes ": " ++ text
message (plain text) = text
message entry_not_found = codes "entry not found"
message member_not_found = codes "member relationship not found"

-- `errors.Is(err, ErrEntryNotFound)`
abbrev pub is_entry_not_found : Error → Bool
is_entry_not_found entry_not_found = true
is_entry_not_found (wrap context e) = is_entry_not_found e
is_entry_not_found (detail e text) = is_entry_not_found e
is_entry_not_found _ = false

-- `errors.Is(err, ErrMemberNotFound)`
abbrev pub is_member_not_found : Error → Bool
is_member_not_found member_not_found = true
is_member_not_found (wrap context e) = is_member_not_found e
is_member_not_found (detail e text) = is_member_not_found e
is_member_not_found _ = false

pub record World (S : Type 0) : Type 0 where
  pub tables : S
  pub faults : List (Option Text)

-- A world in which no statement fails.
abbrev pub calm : {S : Type 0} → S → World S
calm t = record { tables = t; faults = [] }

pub data Outcome (S A : Type 0) : Type 0 where
  done : A → World S → Outcome S A
  raised : Error → World S → Outcome S A

abbrev pub M : Type 0 → Type 0 → Type 0
M S A = World S → Outcome S A

-- The world after a method, whether it returned or failed.
abbrev pub world : {S A : Type 0} → Outcome S A → World S
world (done a w) = w
world (raised e w) = w

abbrev pub follow : {S A B : Type 0} → Outcome S A → (A → M S B) → Outcome S B
follow (done a w) f = f a w
follow (raised e w) f = raised e w

infixl 5 ◌>>=◌ ◌>>◌
unfoldable pub ◌>>=◌ : {S A B : Type 0} → M S A → (A → M S B) → M S B
◌>>=◌ m f w = follow (m w) f

abbrev pub ◌>>◌ : {S B : Type 0} → M S (Unit {0}) → M S B → M S B
m >> k = m >>= λ _. k

abbrev pub return : {S A : Type 0} → A → M S A
return a w = done a w

abbrev pub raise : {S A : Type 0} → Error → M S A
raise e w = raised e w

-- `fmt.Errorf("<text>: %w", err)` around an error.
abbrev pub relabel : {S A : Type 0} → String → Outcome S A → Outcome S A
relabel text (done a w) = done a w
relabel text (raised e w) = raised (wrap (codes text) e) w

unfoldable pub context : {S A : Type 0} → String → M S A → M S A
context text m w = relabel text (m w)

-- The same with a text that the call makes.
abbrev pub relabel_for : {S A : Type 0} → Text → Outcome S A → Outcome S A
relabel_for text (done a w) = done a w
relabel_for text (raised e w) = raised (wrap text e) w

unfoldable pub context_for : {S A : Type 0} → Text → M S A → M S A
context_for text m w = relabel_for text (m w)

module _ {S A : Type 0} where
  answer : Option (A × S) → S → List (Option Text) → Outcome S A
  answer (some (a, t')) t faults = done a (record { tables = t'; faults = faults })
  answer none t faults =
      raised (database (codes "constraint failed")) (record { tables = t; faults = faults })

  run_attempt : (S → Option (A × S)) → S → List (Option Text) → Outcome S A
  unfolding answer
  run_attempt f t [] = answer (f t) t []
  run_attempt f t (none ∷ faults) = answer (f t) t faults
  run_attempt f t (some cause ∷ faults) =
      raised (database cause) (record { tables = t; faults = faults })

  -- A statement, `none` where a constraint of the table refuses it.
  unfoldable pub attempt : (S → Option (A × S)) → M S A
  unfolding run_attempt
  attempt f w = run_attempt f w.tables w.faults

  -- A statement that no constraint refuses.
  abbrev pub statement : (S → A × S) → M S A
  statement f = attempt (λ t. some (f t))

  finish : A → S → World S → List (Option Text) → Outcome S A
  finish a before w [] = done a w
  finish a before w (none ∷ faults) = done a (record w { faults = faults })
  finish a before w (some cause ∷ faults) =
      raised (database cause) (record { tables = before; faults = faults })

  settle : S → Outcome S A → Outcome S A
  unfolding finish
  settle before (done a w') = finish a before w' w'.faults
  settle before (raised e w') = raised e (record w' { tables = before })

  unfoldable pub transaction : M S A → M S A
  unfolding settle
  transaction m w = settle w.tables (m w)

-- A statement that reads, and one that writes.
abbrev pub query : {S A : Type 0} → (S → A) → M S A
query f = statement (λ t. (f t, t))

abbrev pub execute : {S : Type 0} → (S → S) → M S (Unit {0})
execute f = statement (λ t. (tt, f t))
