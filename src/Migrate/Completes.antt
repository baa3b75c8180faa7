-- ===== src/Migrate/Completes.antt =====
-- Where no statement fails, a run of the migrations reaches the end, from wherever it starts.
use agentlens.Common.{
  ℕ, ◌≤◌, ◌<◌, ◌≡◌, refl, sym, subst, ap, ◌∙◌, true, false, Option, none, some, List, [], ◌∷◌, ◌++◌,
  map, any, leb, eqb, if_false, arith,
}
use agentlens.Sql.{calm, done, ◌>>◌, attempt, transaction}
use agentlens.Sql.Laws.{
  bind_run, context_run, context_for_run, attempt_calm, statement_calm, transaction_calm,
  if_run_false,
}
use agentlens.Migrate.{
  Migration, SchemaMigration, Db, max_from, has_schema_table, or_missing, version_of,
  current_version, with_schema, run_up, record_version, apply_tx, migrate_from, migrate,
}
use agentlens.Migrate.Resumes.{
  Ascending, row, then_up, run_ups, IsPartlyApplied, AllBelow, max_from-Ascending,
  migrate_from-skips,
}

abbrev Recorded : ℕ → List SchemaMigration → Type 0
Recorded top [] = Unit
Recorded top (r ∷ rs) = (r.version ≤ top) × Recorded top rs

Recorded-append :
    (top next : ℕ) (rs : List SchemaMigration) (r : SchemaMigration)
    → Recorded top rs
    → top ≤ next
    → r.version ≤ next
    → Recorded next (rs ++ r ∷ [])
Recorded-append top next [] r h up bound = (bound, tt)
Recorded-append top next (x ∷ rs) r (below, h) up bound =
    (omega arith, Recorded-append top next rs r h up bound)

Recorded-fresh :
    (top v : ℕ) (rs : List SchemaMigration)
    → Recorded top rs
    → top < v
    → any (λ r. eqb r.version v) rs ≡ false
Recorded-fresh top v [] h above = refl
Recorded-fresh top v (r ∷ rs) (below, h) above =
    let rest = Recorded-fresh top v rs h above in ground arith

module _ {T : Type 0} where
  AllBelow-Recorded :
      (top : ℕ) (ms : List (Migration T)) → AllBelow top ms → Recorded top (map row ms)
  AllBelow-Recorded top [] h = tt
  AllBelow-Recorded top (m ∷ ms) (below, h) = (below, AllBelow-Recorded top ms h)

  abbrev applied_one : Migration T → T → Db T → Db T
  applied_one m schema d = record d { schema = schema; applied = d.applied ++ row m ∷ [] }

  apply_tx-calm :
      (m : Migration T) (schema : T) (d : Db T)
      → m.up d.schema ≡ some schema
      → any (λ r. eqb r.version m.version) d.applied ≡ false
      → apply_tx m (calm d) ≡ done tt (calm (applied_one m schema d))
  apply_tx-calm m schema d ran free =
      bind_run _ (λ (u : Unit {0}). attempt (record_version m))
        (context_for_run _ _ (attempt_calm (run_up m) (ap (with_schema d) ran)))
      ∙ attempt_calm (record_version m) (if_false _ _ free)

  run_ups-none : (ms : List (Migration T)) (s : T) → run_ups none ms ≡ some s → ⊥
  run_ups-none [] s h = cc
  run_ups-none (m ∷ ms) s h = run_ups-none ms s h

  Option-split :
      (o : Option T) (ms : List (Migration T)) (s : T)
      → run_ups o ms ≡ some s
      → (x : T) × (o ≡ some x)
  Option-split none ms s h = let never = run_ups-none ms s h in elim never [ ]
  Option-split (some x) ms s h = (x, refl)

  run_ups-append_all :
      (o : Option T) (ms ns : List (Migration T)) → run_ups o (ms ++ ns) ≡ run_ups (run_ups o ms) ns
  run_ups-append_all o [] ns = refl
  run_ups-append_all o (m ∷ ms) ns = run_ups-append_all (then_up o m) ms ns

  current_version-calm :
      (d : Db T)
      → d.has_table ≡ true
      → current_version (calm d) ≡ done (max_from 0 d.applied) (calm d)
  unfolding current_version has_schema_table
  current_version-calm d h =
      bind_run _ version_of (ap or_missing (statement_calm (λ d. (d.has_table, d)) d))
      ∙ ap (λ b. version_of b (calm d)) h
      ∙ context_run _ _ (statement_calm (λ d. (max_from 0 d.applied, d)) d)

  migrate_from-calm :
      (ms : List (Migration T)) (c low : ℕ) (d : Db T) (s : T)
      → Ascending low ms
      → c ≤ low
      → Recorded low d.applied
      → run_ups (some d.schema) ms ≡ some s
      → (d' : Db T) × ((migrate_from ms c (calm d) ≡ done tt (calm d')) × (d'.schema ≡ s))
  unfolding migrate_from
  migrate_from-calm [] c low d s up bound old h = (d, (refl, ground arith))
  migrate_from-calm (m ∷ ms) c low d s (above, up) bound old h =
      let (x, ran) = Option-split (m.up d.schema) ms s h in
      let free = Recorded-fresh low m.version d.applied old above in
      let once : transaction (apply_tx m) (calm d) ≡ done tt (calm (applied_one m x d)) =
        transaction_calm (apply_tx m) (calm d) tt (applied_one m x d)
          (apply_tx-calm m x d ran free) in
      let (d', (rest, final)) =
        migrate_from-calm ms c m.version (applied_one m x d) s up (omega arith)
          (Recorded-append low m.version d.applied (row m) old (omega arith) (omega arith))
          (ap (λ o. run_ups o ms) (sym ran) ∙ h) in
      let later : leb m.version c ≡ false = ground arith in
      (
        d',
        (
          if_run_false (migrate_from ms c) (transaction (apply_tx m) >> migrate_from ms c) (calm d)
                later
              ∙ bind_run (transaction (apply_tx m)) (λ (u : Unit {0}). migrate_from ms c) once
              ∙ rest,
          final,
        ),
      )

  -- Where no statement fails, the versions grow from 1 on, a first part of the migrations has been
  -- applied, and each of them succeeds on what those before it left: Migrate returns no error, and
  -- leaves the schema that they make together.
  pub migrate-calm :
      (start : T) (ms : List (Migration T)) (d : Db T) (s : T)
      → Ascending 0 ms
      → IsPartlyApplied start ms d
      → run_ups (some start) ms ≡ some s
      → (d' : Db T) × ((migrate ms (calm d) ≡ done tt (calm d')) × (d'.schema ≡ s))
  unfolding migrate
  migrate-calm start ms d s up h all =
      let top = max_from 0 (map row h.before) in
      let (bound, (below, rest)) =
        max_from-Ascending 0 h.before h.after (subst (Ascending 0) (sym h.split) up) in
      let made = record d { has_table = true } in
      let (d', (ran, final)) =
        migrate_from-calm h.after top top made s rest (omega arith)
          (subst (Recorded top) (sym h.applied.rows) (AllBelow-Recorded top h.before below))
          (ap (λ o. run_ups o h.after) (sym h.applied.schema)
            ∙ sym (run_ups-append_all (some start) h.before h.after)
            ∙ ap (run_ups (some start)) h.split
            ∙ all) in
      (
        d',
        (
          bind_run _ (migrate_from ms) (
                bind_run _ (λ (u : Unit {0}). current_version)
                  (context_run _ _ (statement_calm (λ d. (tt, record d { has_table = true })) d))
                ∙ current_version-calm made refl)
              ∙ subst (λ c. migrate_from ms c (calm made) ≡ done tt (calm d'))
                  (sym (ap (max_from 0) h.applied.rows))
                  (subst (λ l. migrate_from l top (calm made) ≡ done tt (calm d')) h.split
                    (migrate_from-skips h.before h.after top (calm made) below ∙ ran)),
          final,
        ),
      )
