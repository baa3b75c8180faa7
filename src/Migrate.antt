-- ===== src/Migrate.antt =====
-- internal/db/migrate.go. What a migration does to the schema is its own: `up` is a parameter of
-- each, none where it returns an error. AppliedAt is left out. Of rows with the same version, which
-- the sort may put in any order, the first stays first here.
mod Resumes
mod Completes
mod Sorted
mod Tests
use agentlens.Common.{
  ℕ, String, Bool, true, false, Option, none, some, List, [], ◌∷◌, ◌++◌, any, ltb, leb, eqb, codes,
  if◌then◌else◌, Text,
}
use agentlens.Sql.{
  World, Outcome, done, raised, M, ◌>>=◌, ◌>>◌, return, context, context_for, attempt, query,
  execute, transaction,
}
use agentlens.Card.{itoa}

pub record Migration (T : Type 0) : Type 0 where
  pub version : ℕ
  pub description : String
  pub up : T → Option T

pub record SchemaMigration : Type 0 where
  pub version : ℕ
  pub description : String

-- The database: the schema, and the table schema_migrations where it exists.
pub record Db (T : Type 0) : Type 0 where
  pub schema : T
  pub has_table : Bool
  pub applied : List SchemaMigration

-- The larger version of ORDER BY version DESC, 0 where there is no row.
abbrev pub larger : ℕ → ℕ → ℕ
larger a b = if leb a b then b else a

abbrev pub max_from : ℕ → List SchemaMigration → ℕ
max_from a [] = a
max_from a (r ∷ rs) = max_from (larger a r.version) rs

module _ {T : Type 0} where
  abbrev pub insert_by_version : Migration T → List (Migration T) → List (Migration T)
  insert_by_version m [] = m ∷ []
  insert_by_version m (n ∷ ns) =
      let rest = insert_by_version m ns in if ltb n.version m.version then n ∷ rest else m ∷ n ∷ ns

  unfoldable pub new_migrator : List (Migration T) → List (Migration T)
  new_migrator [] = []
  new_migrator (m ∷ ms) = insert_by_version m (new_migrator ms)

  -- A test that fails counts as a missing table.
  abbrev pub or_missing : Outcome (Db T) Bool → Outcome (Db T) Bool
  or_missing (done b w) = done b w
  or_missing (raised e w) = done false w

  unfoldable pub has_schema_table : M (Db T) Bool
  has_schema_table w = or_missing (query (λ d. d.has_table) w)

  abbrev pub version_of : Bool → M (Db T) ℕ
  version_of exists =
      if exists
      then context "querying current version" (query (λ d. max_from 0 d.applied))
      else return 0

  unfoldable pub current_version : M (Db T) ℕ
  current_version = has_schema_table >>= version_of

  abbrev pub with_schema : Db T → Option T → Option (Unit {0} × Db T)
  with_schema d none = none
  with_schema d (some schema) = some (tt, record d { schema = schema })

  abbrev pub run_up : Migration T → Db T → Option (Unit {0} × Db T)
  run_up m d = with_schema d (m.up d.schema)

  -- The version is the primary key.
  abbrev pub record_version : Migration T → Db T → Option (Unit {0} × Db T)
  record_version m d =
      if any (λ r. eqb r.version m.version) d.applied
      then none
      else some (
        tt,
        record d {
          applied = d.applied ++ record { version = m.version; description = m.description } ∷ [];
        },
      )

  abbrev pub apply_tx : Migration T → M (Db T) (Unit {0})
  apply_tx m =
      context_for
        (codes "migration " ++ itoa m.version ++ codes " (" ++ codes m.description ++ codes ")")
        (attempt (run_up m))
      >> attempt (record_version m)

  unfoldable pub migrate_from : List (Migration T) → ℕ → M (Db T) (Unit {0})
  migrate_from [] current = return tt
  migrate_from (m ∷ ms) current =
      let rest = migrate_from ms current in
      if leb m.version current then rest else transaction (apply_tx m) >> rest

  unfoldable pub migrate : List (Migration T) → M (Db T) (Unit {0})
  migrate ms =
      context "creating schema_migrations table" (execute (λ d. record d { has_table = true }))
      >> current_version
      >>= migrate_from ms
