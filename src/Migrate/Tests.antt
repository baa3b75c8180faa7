-- ===== src/Migrate/Tests.antt =====
-- Migrations given in the wrong order, on an empty database and after a failure.
use agentlens.Common.{ℕ, String, ◌≡◌, refl, false, none, some, List, [], ◌∷◌, ◌++◌, codes, arith}
use agentlens.Sql.{World, calm, done, world, ◌>>=◌, context, context_for, attempt, transaction}
use agentlens.Migrate.{
  Migration, Db, new_migrator, has_schema_table, current_version, migrate_from, migrate,
}
use agentlens.Migrate.Resumes.{IsPartlyApplied, IsRun, run_ups, migrate-IsRun}
use agentlens.Migrate.Completes.{migrate-calm}
use agentlens.Migrate.Sorted.{DistinctVersions, new_migrator-Ascending}

abbrev add_table : ℕ → String → Migration (List String)
add_table version name = record {
  version = version;
  description = name;
  up = λ tables. some (tables ++ name ∷ []);
}

abbrev migrations : List (Migration (List String))
migrations = add_table 2 "users" ∷ add_table 1 "agents" ∷ add_table 3 "parties" ∷ []

abbrev empty_db : Db (List String)
empty_db = record { schema = []; has_table = false; applied = [] }

-- The second statement of the second migration fails, and the run after it goes on from there.
abbrev failing : World (Db (List String))
failing = record {
  tables = empty_db;
  faults = none ∷ none ∷ none ∷ none ∷ none ∷ none ∷ none ∷ some (codes "disk full") ∷ [];
}

abbrev interrupted : World (Db (List String))
interrupted = world (migrate (new_migrator migrations) failing)

interrupted_run :
    (interrupted.tables.schema ≡ "agents" ∷ [])
    × ((world (migrate (new_migrator migrations) interrupted)).tables.schema
        ≡ "agents" ∷ "users" ∷ "parties" ∷ [])
unfolding new_migrator migrate migrate_from current_version has_schema_table ◌>>=◌ context
    context_for attempt transaction
interrupted_run = (refl, refl)

distinct : DistinctVersions migrations
distinct = (
  omega arith,
  (
    (
      (λ e. let clash : ⊥ = omega arith in clash),
      ((λ e. let clash : ⊥ = omega arith in clash), tt),
    ),
    (omega arith, (((λ e. let clash : ⊥ = omega arith in clash), tt), (omega arith, (tt, tt)))),
  ),
)

untouched : IsPartlyApplied [] (new_migrator migrations) empty_db
untouched = record {
  before = [];
  after = new_migrator migrations;
  split = refl;
  applied = record { rows = refl; schema = refl };
}

migrate-IsRun_example :
    IsRun [] (new_migrator migrations) (migrate (new_migrator migrations) failing)
migrate-IsRun_example =
    migrate-IsRun [] (new_migrator migrations) failing (new_migrator-Ascending migrations distinct)
      untouched

all_run : run_ups (some []) (new_migrator migrations) ≡ some ("agents" ∷ "users" ∷ "parties" ∷ [])
unfolding new_migrator
all_run = refl

migrate-calm_example :
    (d' : Db (List String)) × ((migrate (new_migrator migrations) (calm empty_db)
        ≡ done tt (calm d'))
      × (d'.schema ≡ "agents" ∷ "users" ∷ "parties" ∷ []))
migrate-calm_example =
    migrate-calm [] (new_migrator migrations) empty_db ("agents" ∷ "users" ∷ "parties" ∷ [])
      (new_migrator-Ascending migrations distinct) untouched all_run
