-- ===== src/Catalog/Providers.antt =====
-- internal/store/provider_store.go, over the table providers with its unique index of organization
-- and team. CreatedOn is left out.
use agentlens.Common.{
  String, ◌≡◌, ◌≢◌, ◌⊎◌, refl, sym, subst, ap, ◌∙◌, inl, inr, Bool, true, false, ◌&&◌, ◌||◌, Option,
  none, some, List, [], ◌∷◌, ◌++◌, any, find?, Bool-cases, some_inj, eq_refl, if◌then◌else◌, ◌==◌,
  arith,
}
use agentlens.Sql.{
  calm, Error, World, Outcome, done, raised, M, ◌>>◌, return, context, attempt, query,
}
use agentlens.Sql.Laws.{
  attempt-done, statement-done, context-done, bind-done, run-cases, bind_run, context_run,
  attempt_calm, context-raised, attempt-raised, bind-raised, statement_calm,
}

pub record Provider : Type 0 where
  pub id : String
  pub organization : String
  pub team : String
  pub url : String

abbrev pub Providers : Type 0
Providers = List Provider

abbrev pub same_team : Provider → Provider → Bool
same_team p q = q.organization == p.organization && q.team == p.team

abbrev pub insert_provider : Provider → Providers → Option (Unit {0} × Providers)
insert_provider p ps =
    if any (λ q. q.id == p.id || same_team p q) ps then none else some (tt, ps ++ p ∷ [])

abbrev pub create_provider : Provider → M Providers Provider
create_provider p = context "creating provider" (attempt (insert_provider p)) >> return p

-- Any error of the search counts as not found.
abbrev pub provider_found :
    String → Provider → Outcome Providers (Option Provider) → Outcome Providers Provider
provider_found fresh p (done (some existing) w) = done existing w
provider_found fresh p (done none w) = create_provider (record p { id = fresh }) w
provider_found fresh p (raised e w) = create_provider (record p { id = fresh }) w

unfoldable pub upsert_provider : String → Provider → M Providers Provider
upsert_provider fresh p w = provider_found fresh p (query (find? (same_team p)) w)

find-last :
    (id : String) (f : Provider → Bool) (ps : Providers) (p : Provider)
    → any (λ q. q.id == id || f q) ps ≡ false
    → f p ≡ true
    → find? f (ps ++ p ∷ []) ≡ some p
find-last id f [] p h pass = rw pass refl
find-last id f (q ∷ ps) p h pass = elim (Bool-cases (f q)) [
  | inl hit ↦ let clash : true ≡ false = ground arith in cc
  | inr miss ↦ rw miss (find-last id f ps p (ground arith) pass)
]

-- Against the table of before: a row comes back, which was there and the table is as it was, or
-- which was not and is added; an error leaves the table as it was.
abbrev Outcomes : Provider → Providers → Outcome Providers Provider → Type 0
Outcomes p ps (raised e v) = v.tables ≡ ps
Outcomes p ps (done q v) =
    (find? (same_team p) v.tables ≡ some q)
    × (((v.tables ≡ ps) × (find? (same_team p) ps ≡ some q))
        ⊎ ((find? (same_team p) ps ≡ none) × (v.tables ≡ ps ++ q ∷ [])))

find-none : (f : Provider → Bool) (ps : Providers) → any f ps ≡ false → find? f ps ≡ none
find-none f [] h = refl
find-none f (q ∷ ps) h = elim (Bool-cases (f q)) [
  | inl hit ↦ let clash : true ≡ false = ground arith in cc
  | inr miss ↦ rw miss (find-none f ps (ground arith))
]

any-none : (f : Provider → Bool) (ps : Providers) → find? f ps ≡ none → any f ps ≡ false
any-none f [] h = refl
any-none f (q ∷ ps) h = elim (Bool-cases (f q)) [
  | inl hit ↦ let clash = rw hit at h in cc
  | inr miss ↦ rw miss (any-none f ps (rw miss at h))
]

split-any :
    (id : String) (f : Provider → Bool) (ps : Providers)
    → any (λ q. q.id == id || f q) ps ≡ false
    → any f ps ≡ false
split-any id f [] h = refl
split-any id f (q ∷ ps) h = let rest = split-any id f ps (ground arith) in ground arith

join-any :
    (id : String) (f : Provider → Bool) (ps : Providers)
    → any (λ q. q.id == id) ps ≡ false
    → any f ps ≡ false
    → any (λ q. q.id == id || f q) ps ≡ false
join-any id f [] h k = refl
join-any id f (q ∷ ps) h k =
    let rest = join-any id f ps (ground arith) (ground arith) in ground arith

-- What creation does.
create_provider-done :
    (p q : Provider) (w v : World Providers)
    → create_provider p w ≡ done q v
    → Outcomes p w.tables (done q v)
create_provider-done p q w v h =
    let (u, x, first, last) =
      bind-done (context "creating provider" (attempt (insert_provider p)))
        (λ (t : Unit {0}). return p) w v q h in
    let stored = attempt-done (insert_provider p) w u x (context-done _ _ w x u first) in
    elim (Bool-cases (any (λ q. q.id == p.id || same_team p q) w.tables)) [
      | inl taken ↦ let clash = rw taken at stored in cc
      | inr free ↦
          let rows : w.tables ++ p ∷ [] ≡ x.tables = ap (λ y. y.1) (some_inj (rw free at stored)) in
          let own : same_team p p ≡ true = rw (eq_refl p.organization) (eq_refl p.team) in
          let same_row : p ≡ q = ground arith in
          let same_rows : x.tables ≡ v.tables = ground arith in
          (
            ap (find? (same_team p)) (sym (rows ∙ same_rows))
                ∙ find-last p.id (same_team p) w.tables p free own
                ∙ ap some same_row,
            inr (
              find-none (same_team p) w.tables (split-any p.id (same_team p) w.tables free),
              sym (rows ∙ same_rows) ∙ ap (λ r. w.tables ++ r ∷ []) same_row,
            ),
          )
    ]

-- With no fault to come and a row that is free, the creation succeeds.
create_provider-free :
    (p : Provider) (ps : Providers)
    → any (λ q. q.id == p.id || same_team p q) ps ≡ false
    → create_provider p (calm ps) ≡ done p (calm (ps ++ p ∷ []))
create_provider-free p ps free = bind_run _ _ (
    context_run _ _ (
      attempt_calm (insert_provider p)
        (ap (λ b. if b then none else some (tt, ps ++ p ∷ [])) free)))

create_provider-raised :
    (p : Provider) (w v : World Providers) (e : Error)
    → create_provider p w ≡ raised e v
    → v.tables ≡ w.tables
create_provider-raised p w v e h =
    elim (bind-raised (context "creating provider" (attempt (insert_provider p)))
      (λ (t : Unit {0}). return p) w v e h) [
        | inl failed ↦
            let (cause, ran) = context-raised _ _ w v e failed in
            attempt-raised (insert_provider p) w cause v ran
        | inr (u, x, first, last) ↦ cc
      ]

create_provider-Outcomes :
    (p : Provider) (w : World Providers) → Outcomes p w.tables (create_provider p w)
create_provider-Outcomes p w = go (create_provider p w) refl
  where
    go : (o : Outcome Providers Provider) → create_provider p w ≡ o → Outcomes p w.tables o
    go (raised e v) h = create_provider-raised p w v e h
    go (done q v) h = create_provider-done p q w v h

upsert_provider-Outcomes :
    (fresh : String) (p : Provider) (w : World Providers)
    → Outcomes p w.tables (upsert_provider fresh p w)
unfolding upsert_provider
upsert_provider-Outcomes fresh p w =
    run-cases (Outcomes p w.tables) (query (find? (same_team p))) (provider_found fresh p) w found
      λ e v h.
        subst (λ ps. Outcomes p ps (create_provider (record p { id = fresh }) v))
          (attempt-raised (λ ps. some (find? (same_team p) ps, ps)) w e v h)
          (create_provider-Outcomes (record p { id = fresh }) v)
  where
    found :
        (o : Option Provider) (v : World Providers)
        → query (find? (same_team p)) w ≡ done o v
        → Outcomes p w.tables (provider_found fresh p (done o v))
    found none v h =
        let (read, same) = statement-done (λ ps. (find? (same_team p) ps, ps)) w none v h in
        subst (λ ps. Outcomes p ps (create_provider (record p { id = fresh }) v)) (sym same)
          (create_provider-Outcomes (record p { id = fresh }) v)
    found (some q) v h =
        let (read, same) = statement-done (λ ps. (find? (same_team p) ps, ps)) w (some q) v h in
        (ap (find? (same_team p)) (sym same) ∙ read, inl (sym same, read))

-- With no fault to come there is no error.
upsert_provider-calm :
    (fresh : String) (p : Provider) (ps : Providers)
    → any (λ q. q.id == fresh) ps ≡ false
    → (q : Provider) × (v : World Providers) × (upsert_provider fresh p (calm ps) ≡ done q v)
unfolding upsert_provider
upsert_provider-calm fresh p ps free = go (find? (same_team p) ps) refl
  where
    go :
        (o : Option Provider)
        → find? (same_team p) ps ≡ o
        → (q : Provider) × (v : World Providers) × (provider_found fresh p
              (query (find? (same_team p)) (calm ps))
            ≡ done q v)
    go (some q) e = (
      q,
      calm ps,
      ap (provider_found fresh p)
          (statement_calm (λ xs. (find? (same_team p) xs, xs)) ps ∙ ap (λ o. done o (calm ps)) e),
    )
    go none e = (
      record p { id = fresh },
      calm (ps ++ record p { id = fresh } ∷ []),
      ap (provider_found fresh p)
            (statement_calm (λ xs. (find? (same_team p) xs, xs)) ps ∙ ap (λ o. done o (calm ps)) e)
          ∙ create_provider-free (record p { id = fresh }) ps
              (join-any fresh (same_team p) ps free (any-none (same_team p) ps e)),
    )

-- A provider that comes back is the row that its organization and team find afterwards: the row
-- that they found before, in an unchanged table, or a new row at the end where they found none. An
-- error leaves the table unchanged, and there is one only where a statement fails.
abbrev pub IsUpsert : Provider → World Providers → Outcome Providers Provider → Type 0
IsUpsert p w (raised e v) = (v.tables ≡ w.tables) × (w.faults ≢ [])
IsUpsert p w (done q v) =
    (find? (same_team p) v.tables ≡ some q)
    × (((v.tables ≡ w.tables) × (find? (same_team p) w.tables ≡ some q))
        ⊎ ((find? (same_team p) w.tables ≡ none) × (v.tables ≡ w.tables ++ q ∷ [])))

-- Whichever statements fail, the search included, and where no row has the new identifier: the
-- provider that UpsertProvider returns is the row that its organization and team find afterwards,
-- either the one that they found before, with the table unchanged, or a new one at its end where
-- they found none; an error leaves the table unchanged, and there is one only where the run has a
-- fault to come.
pub upsert_provider-IsUpsert :
    (fresh : String) (p : Provider) (w : World Providers)
    → any (λ q. q.id == fresh) w.tables ≡ false
    → IsUpsert p w (upsert_provider fresh p w)
upsert_provider-IsUpsert fresh p w free =
    go (upsert_provider fresh p w) refl (upsert_provider-Outcomes fresh p w)
  where
    go :
        (o : Outcome Providers Provider)
        → upsert_provider fresh p w ≡ o
        → Outcomes p w.tables o
        → IsUpsert p w o
    go (done q v) h k = k
    go (raised e v) h k = (
      k,
      λ quiet.
          let (q, x, ran) = upsert_provider-calm fresh p w.tables free in
          let at_rest : upsert_provider fresh p w ≡ upsert_provider fresh p (calm w.tables) =
            ap (λ fs. upsert_provider fresh p (record w { faults = fs })) quiet in
          let clash : raised e v ≡ done q x = sym h ∙ at_rest ∙ ran in cc,
    )
