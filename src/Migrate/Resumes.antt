-- ===== src/Migrate/Resumes.antt =====
-- Every migration is applied once and in order, however often a run fails and is started again.
use agentlens.Common.{
  ℕ, ◌≤◌, ◌<◌, ◌≡◌, refl, sym, subst, ap, ◌∙◌, ◌⊎◌, inl, inr, Bool, true, false, Option, none, some,
  List, [], ◌∷◌, ◌++◌, map, any, leb, eqb, Bool-cases, append_nil, append_assoc, some_inj,
  if◌then◌else◌, arith,
}
use agentlens.Sql.{
  Error, World, Outcome, done, raised, world, follow, M, ◌>>=◌, ◌>>◌, context, attempt, query,
  execute, transaction,
}
use agentlens.Sql.Laws.{
  attempt-done, attempt-raised, statement-done, context-done, context-raised, context_for-done,
  bind-done, transaction-done, transaction-raised, run-cases,
}
use agentlens.Sql.Keeps.{Keeps, Keeps-return, Keeps-context, Keeps-bind, Keeps-query}
use agentlens.Migrate.{
  Migration, SchemaMigration, Db, larger, max_from, or_missing, has_schema_table, version_of,
  current_version, with_schema, run_up, record_version, apply_tx, migrate_from, migrate,
}

module _ {T : Type 0} where
  -- Versions that grow, all of them above a bound.
  abbrev pub Ascending : ℕ → List (Migration T) → Type 0
  Ascending low [] = Unit
  Ascending low (m ∷ ms) = (low < m.version) × Ascending m.version ms

  abbrev pub row : Migration T → SchemaMigration
  row m = record { version = m.version; description = m.description }

  -- The schema after the migrations, where each of them succeeds.
  abbrev pub then_up : Option T → Migration T → Option T
  then_up none m = none
  then_up (some schema) m = m.up schema

  abbrev pub run_ups : Option T → List (Migration T) → Option T
  run_ups schema [] = schema
  run_ups schema (m ∷ ms) = run_ups (then_up schema m) ms

  map-append_row :
      (ms : List (Migration T)) (m : Migration T)
      → map row (ms ++ m ∷ []) ≡ map row ms ++ row m ∷ []
  map-append_row [] m = refl
  map-append_row (n ∷ ms) m = ap (λ l. row n ∷ l) (map-append_row ms m)

  run_ups-append :
      (s : Option T) (ms : List (Migration T)) (m : Migration T)
      → run_ups s (ms ++ m ∷ []) ≡ then_up (run_ups s ms) m
  run_ups-append s [] m = refl
  run_ups-append s (n ∷ ms) m = run_ups-append (then_up s n) ms m

  -- The first part of the migrations is applied, and nothing else.
  pub record IsApplied (start : T) (ms : List (Migration T)) (d : Db T) : Type 0 where
    pub rows : d.applied ≡ map row ms
    pub schema : run_ups (some start) ms ≡ some d.schema

  pub record IsPartlyApplied (start : T) (ms : List (Migration T)) (d : Db T) : Type 0 where
    pub before : List (Migration T)
    pub after : List (Migration T)
    pub split : before ++ after ≡ ms
    pub applied : IsApplied start before d

  with_schema-done :
      (d : Db T) (o : Option T) (u : Unit {0}) (e : Db T)
      → with_schema d o ≡ some (u, e)
      → (o ≡ some e.schema) × (e.applied ≡ d.applied)
  with_schema-done d none u e h = cc
  with_schema-done d (some schema) u e h =
      let same = ap (λ p. p.1) (some_inj h) in
      (ap (λ (x : Db T). some x.schema) same, ap (λ (x : Db T). x.applied) (sym same))

  record_version-done :
      (m : Migration T) (d e : Db T)
      → record_version m d ≡ some (tt, e)
      → (any (λ r. eqb r.version m.version) d.applied ≡ false)
        × ((e.applied ≡ d.applied ++ row m ∷ []) × (e.schema ≡ d.schema))
  record_version-done m d e h = elim (Bool-cases (any (λ r. eqb r.version m.version) d.applied)) [
    | inl taken ↦ let clash = rw taken at h in cc
    | inr free ↦
        let same = ap (λ p. p.1) (some_inj (rw free at h)) in
        (free, (ap (λ (x : Db T). x.applied) (sym same), ap (λ (x : Db T). x.schema) (sym same)))
  ]

  apply_tx-done :
      (start : T) (ms : List (Migration T)) (m : Migration T) (w v : World (Db T))
      → IsApplied start ms w.tables
      → apply_tx m w ≡ done tt v
      → IsApplied start (ms ++ m ∷ []) v.tables
  apply_tx-done start ms m w v h ran =
      let (u, x, first, second) =
        bind-done _ (λ (y : Unit {0}). attempt (record_version m)) w v tt ran in
      let (upped, same_rows) =
        with_schema-done w.tables (m.up w.tables.schema) u x.tables
          (attempt-done (run_up m) w u x (context_for-done _ _ w x u first)) in
      let (free, (rows, schema)) =
        record_version-done m x.tables v.tables (attempt-done (record_version m) x tt v second) in
      record {
        rows = rows ∙ ap (λ l. l ++ row m ∷ []) (same_rows ∙ h.rows) ∙ sym (map-append_row ms m);
        schema =
            run_ups-append (some start) ms m
            ∙ ap (λ o. then_up o m) h.schema
            ∙ upped
            ∙ ap some (sym schema);
      }

  -- A migration that is on record is refused.
  apply_tx-recorded :
      (m : Migration T) (w v : World (Db T))
      → any (λ r. eqb r.version m.version) w.tables.applied ≡ true
      → apply_tx m w ≡ done tt v
      → ⊥
  apply_tx-recorded m w v there ran =
      let (u, x, first, second) =
        bind-done _ (λ (y : Unit {0}). attempt (record_version m)) w v tt ran in
      let (upped, same_rows) =
        with_schema-done w.tables (m.up w.tables.schema) u x.tables
          (attempt-done (run_up m) w u x (context_for-done _ _ w x u first)) in
      let (free, rest) =
        record_version-done m x.tables v.tables (attempt-done (record_version m) x tt v second) in
      let clash : true ≡ false =
        sym there ∙ ap (any (λ r. eqb r.version m.version)) (sym same_rows) ∙ free in
      cc

  -- What a run promises from a first part on: progress is kept, and success means the whole.
  abbrev pub IsRun : T → List (Migration T) → Outcome (Db T) (Unit {0}) → Type 0
  IsRun start ms (done u v) = IsApplied start ms v.tables
  IsRun start ms (raised e v) = IsPartlyApplied start ms v.tables

  follow_tx :
      (start : T) (ms : List (Migration T)) (m : Migration T) (rest : M (Db T) (Unit {0})) (c : ℕ)
      (w : World (Db T))
      → c < m.version
      → ((v : World (Db T)) → transaction (apply_tx m) w ≡ done tt v → IsRun start ms (rest v))
      → IsPartlyApplied start ms w.tables
      → IsRun start ms ((if leb m.version c then rest else transaction (apply_tx m) >> rest) w)
  unfolding ◌>>=◌
  follow_tx start ms m rest c w above next here =
      let later : leb m.version c ≡ false = ground arith in
      rw later (
        run-cases (IsRun start ms) (transaction (apply_tx m)) (λ o. follow o (λ u. rest)) w
          (λ u v ran. next v ran)
          λ e v ran.
            subst (IsPartlyApplied start ms) (sym (transaction-raised (apply_tx m) w e v ran)) here)

  -- From a first part on, with the versions above it.
  migrate_from-IsRun :
      (start : T) (before after : List (Migration T)) (c low : ℕ) (w : World (Db T))
      → Ascending low after
      → c ≤ low
      → IsApplied start before w.tables
      → IsRun start (before ++ after) (migrate_from after c w)
  unfolding migrate_from
  migrate_from-IsRun start before [] c low w up bound h =
      subst (λ l. IsApplied start l w.tables) (sym (append_nil before)) h
  migrate_from-IsRun start before (m ∷ ms) c low w (above, up) bound h =
      follow_tx start (before ++ m ∷ ms) m (migrate_from ms c) c w (omega arith)
        (λ v ran.
          let (x, tx, same) = transaction-done (apply_tx m) w tt v ran in
          subst (λ l. IsRun start l (migrate_from ms c v)) (append_assoc before (m ∷ []) ms)
            (migrate_from-IsRun start (before ++ m ∷ []) ms c m.version v up (omega arith) (
              subst (IsApplied start (before ++ m ∷ [])) (sym same)
                (apply_tx-done start before m w x h tx))))
        (record { before = before; after = m ∷ ms; split = refl; applied = h })

  -- The highest version on record is that of the first part.
  abbrev pub AllBelow : ℕ → List (Migration T) → Type 0
  AllBelow c [] = Unit
  AllBelow c (m ∷ ms) = (m.version ≤ c) × AllBelow c ms

  pub max_from-Ascending :
      (low : ℕ) (before after : List (Migration T))
      → Ascending low (before ++ after)
      → (low ≤ max_from low (map row before))
        × (AllBelow (max_from low (map row before)) before
            × Ascending (max_from low (map row before)) after)
  max_from-Ascending low [] after up = (omega arith, (tt, up))
  max_from-Ascending low (m ∷ ms) after (above, up) =
      let it : larger low m.version ≡ m.version = ground arith in
      let (bound, (below, rest)) = max_from-Ascending m.version ms after up in
      subst
        (λ k.
          (low ≤ max_from k (map row ms))
          × (AllBelow (max_from k (map row ms)) (m ∷ ms)
              × Ascending (max_from k (map row ms)) after))
        (sym it) (omega arith, ((bound, below), rest))

  pub migrate_from-skips :
      (before after : List (Migration T)) (c : ℕ) (w : World (Db T))
      → AllBelow c before
      → migrate_from (before ++ after) c w ≡ migrate_from after c w
  unfolding migrate_from
  migrate_from-skips [] after c w below = refl
  migrate_from-skips (m ∷ ms) after c w (below, rest) =
      let old : leb m.version c ≡ true = ground arith in
      rw old (migrate_from-skips ms after c w rest)

  -- Where the version is read as 0, the first migration on record is refused again.
  migrate_from-refused :
      (start : T) (before after : List (Migration T)) (w : World (Db T))
      → Ascending 0 (before ++ after)
      → IsApplied start before w.tables
      → IsRun start (before ++ after) (migrate_from (before ++ after) 0 w)
  unfolding migrate_from
  migrate_from-refused start [] after w up h =
      migrate_from-IsRun start [] after 0 0 w up (omega arith) h
  migrate_from-refused start (m ∷ ms) after w (above, up) h =
      follow_tx start (m ∷ ms ++ after) m (migrate_from (ms ++ after) 0) 0 w above
        (λ v ran.
          let (x, tx, same) = transaction-done (apply_tx m) w tt v ran in
          let never = apply_tx-recorded m w x (rw h.rows (ground arith)) tx in elim never [ ])
        (record { before = m ∷ ms; after = after; split = refl; applied = h })

  world-or_missing : (o : Outcome (Db T) Bool) → world (or_missing o) ≡ world o
  world-or_missing (done b w) = refl
  world-or_missing (raised e w) = refl

  has_schema_table-Keeps : {P : Db T → Type 0} → Keeps P has_schema_table
  unfolding has_schema_table
  has_schema_table-Keeps {P} = record {
    after = λ w p.
        let kept : Keeps P (query (λ (d : Db T). d.has_table)) =
          Keeps-query (λ (d : Db T). d.has_table) in
        subst (λ v. P v.tables) (sym (world-or_missing (query (λ d. d.has_table) w)))
          (kept.after w p);
  }

  current_version-Keeps : {P : Db T → Type 0} → Keeps P current_version
  unfolding current_version
  current_version-Keeps {P} = Keeps-bind has_schema_table-Keeps versions
    where
      versions : (b : Bool) → Keeps P (version_of b)
      versions true = Keeps-context _ (Keeps-query _)
      versions false = Keeps-return 0

  version_of-done :
      (b : Bool) (c : ℕ) (w v : World (Db T))
      → version_of b w ≡ done c v
      → (c ≡ 0) ⊎ (c ≡ max_from 0 w.tables.applied)
  version_of-done true c w v h = inr (sym ((statement-done _ w c v (context-done _ _ w v c h)).0))
  version_of-done false c w v h = inl (ground arith)

  current_version-done :
      (d : Db T) (c : ℕ) (w v : World (Db T))
      → w.tables ≡ d
      → current_version w ≡ done c v
      → (v.tables ≡ d) × ((c ≡ 0) ⊎ (c ≡ max_from 0 d.applied))
  unfolding current_version
  current_version-done d c w v here h =
      let (b, x, first, second) = bind-done has_schema_table version_of w v c h in
      let kept : x.tables ≡ d =
        rw first at ((has_schema_table-Keeps {P = λ (e : Db T). e ≡ d}).after w here) in
      let all : v.tables ≡ d =
        rw h at ((current_version-Keeps {P = λ (e : Db T). e ≡ d}).after w here) in
      (
        all,
        subst (λ (e : Db T). (c ≡ 0) ⊎ (c ≡ max_from 0 e.applied)) kept
            (version_of-done b c x v second),
      )

  version_runs :
      (start : T) (before after : List (Migration T)) (c : ℕ) (w : World (Db T))
      → Ascending 0 (before ++ after)
      → IsApplied start before w.tables
      → (c ≡ 0) ⊎ (c ≡ max_from 0 w.tables.applied)
      → IsRun start (before ++ after) (migrate_from (before ++ after) c w)
  version_runs start before after c w up h (inl zero_read) =
      subst (λ k. IsRun start (before ++ after) (migrate_from (before ++ after) k w))
        (sym zero_read) (migrate_from-refused start before after w up h)
  version_runs start before after c w up h (inr top_read) =
      let top : c ≡ max_from 0 (map row before) = top_read ∙ ap (max_from 0) h.rows in
      let (bound, (below, rest)) = max_from-Ascending 0 before after up in
      subst (λ k. IsRun start (before ++ after) (migrate_from (before ++ after) k w)) (sym top)
        (subst (IsRun start (before ++ after))
          (sym (migrate_from-skips before after (max_from 0 (map row before)) w below))
          (migrate_from-IsRun start before after _ _ w rest (omega arith) h))

  table_made : Db T → Db T
  table_made d = record d { has_table = true }

  made-IsApplied :
      (start : T) (ms : List (Migration T)) (d : Db T)
      → IsApplied start ms d
      → IsApplied start ms (table_made d)
  unfolding table_made
  made-IsApplied start ms d h = record { rows = h.rows; schema = h.schema }

  partly-IsRun :
      (start : T) (ms : List (Migration T)) (d : Db T)
      → IsPartlyApplied start ms d
      → (e : Error) (v : World (Db T)) → v.tables ≡ d
      → IsRun start ms (raised e v)
  partly-IsRun start ms d h e v same = subst (IsPartlyApplied start ms) (sym same) h

  -- Whichever statements fail, where the versions of the sorted migrations grow from 1 on and a first
  -- part of them has been applied: after a Migrate that fails a first part of them is applied, each
  -- once and in order, and after a Migrate that returns no error all of them are.
  pub migrate-IsRun :
      (start : T) (ms : List (Migration T)) (w : World (Db T))
      → Ascending 0 ms
      → IsPartlyApplied start ms w.tables
      → IsRun start ms (migrate ms w)
  unfolding migrate ◌>>=◌ table_made
  migrate-IsRun start ms w up h =
      run-cases (IsRun start ms) made
        (λ o. follow (follow o (λ u. current_version)) (migrate_from ms)) w
        (λ u v ran.
          let (tt_same, same) =
            statement-done (λ d. (tt, record d { has_table = true })) w u v
              (context-done _ _ w v u ran) in
          let here : IsApplied start h.before v.tables =
            subst (IsApplied start h.before) same
              (made-IsApplied start h.before w.tables h.applied) in
          run-cases (IsRun start ms) current_version (λ o. follow o (migrate_from ms)) v
            (λ c x read.
              let (kept, version) = current_version-done v.tables c v x refl read in
              subst (λ l. IsRun start l (migrate_from l c x)) h.split
                (version_runs start h.before h.after c x (subst (Ascending 0) (sym h.split) up)
                  (subst (IsApplied start h.before) (sym kept) here)
                  (subst (λ (d : Db T). (c ≡ 0) ⊎ (c ≡ max_from 0 d.applied)) (sym kept) version)))
            λ e x read.
              partly-IsRun start ms v.tables
                (record { before = h.before; after = h.after; split = h.split; applied = here }) e x
                (rw read at
                  ((current_version-Keeps {P = λ (d : Db T). d ≡ v.tables}).after v refl)))
        λ e v ran.
          let (cause, failed) = context-raised _ _ w v e ran in
          partly-IsRun start ms w.tables h e v
            (attempt-raised (λ d. some (tt, record d { has_table = true })) w cause v failed)
    where
      made : M (Db T) (Unit {0})
      made =
          context "creating schema_migrations table" (execute (λ d. record d { has_table = true }))
