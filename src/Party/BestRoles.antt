-- ===== src/Party/BestRoles.antt =====
-- The loop of ResolveUserProjects that keeps the best role of each project, in
-- internal/store/party_store_role_resolution.go, against the rows that it runs over.
use agentlens.Common.{
  some_inj, ◌≤◌, String, ◌≡◌, refl, sym, ap, ap₂, subst, ◌∙◌, ◌⊎◌, inl, inr, true, false, Option,
  none, some, List, [], ◌∷◌, map, ltb, Member, Bool-cases, if◌then◌else◌, ◌==◌, eq_iff, eq_refl,
  arith,
}
use agentlens.Party.Projects.{Best, rank_role, role_of, put_role, wins, best_roles}

role_of-put :
    (project role : String) (best : Best) → role_of project (put_role project role best) ≡ some role
role_of-put project role [] = rw (eq_refl project) refl
role_of-put project role ((p, old) ∷ best) = elim (Bool-cases (p == project)) [
  | inl hit ↦ rw hit (rw hit refl)
  | inr miss ↦ rw miss (rw miss (role_of-put project role best))
]

role_of-put_other :
    (other project role : String) (best : Best)
    → (project == other) ≡ false
    → role_of other (put_role project role best) ≡ role_of other best
role_of-put_other other project role [] differ = rw differ refl
role_of-put_other other project role ((p, old) ∷ best) differ = elim (Bool-cases (p == project)) [
  | inl hit ↦
      let apart : (p == other) ≡ false = ap (λ x. x == other) ((eq_iff p project).0 hit) ∙ differ in
      rw hit (rw apart refl)
  | inr miss ↦ rw miss (elim (Bool-cases (p == other)) [
    | inl same ↦ rw same refl
    | inr apart ↦ rw apart (role_of-put_other other project role best differ)
  ])
]

-- The role of a project that a row of the table has at least.
abbrev pub IsAtLeast : Option String → String → Type 0
IsAtLeast o role = (found : String) × (o ≡ some found) × (rank_role role ≤ rank_role found)

abbrev step : String → String → Best → Best
step project role best =
    if wins role (role_of project best) then put_role project role best else best

step_own :
    (project role : String) (best : Best)
    → IsAtLeast (role_of project (step project role best)) role
step_own project role best = go (role_of project best) refl
  where
    go :
        (o : Option String)
        → role_of project best ≡ o
        → IsAtLeast (role_of project (step project role best)) role
    go none e = rw e (role, role_of-put project role best, omega arith)
    go (some old) e = elim (Bool-cases (ltb (rank_role old) (rank_role role))) [
      | inl better ↦ rw e (rw better (role, role_of-put project role best, omega arith))
      | inr worse ↦ rw e (rw worse (old, e, ground arith))
    ]

step_other :
    (other project role : String) (best : Best)
    → (project == other) ≡ false
    → role_of other (step project role best) ≡ role_of other best
step_other other project role best differ = elim (Bool-cases (wins role (role_of project best))) [
  | inl won ↦ rw won (role_of-put_other other project role best differ)
  | inr lost ↦ rw lost refl
]

step_keeps :
    (other project role least : String) (best : Best)
    → IsAtLeast (role_of other best) least
    → IsAtLeast (role_of other (step project role best)) least
step_keeps other project role least best (found, e, bound) = elim (Bool-cases (project == other)) [
  | inl same ↦
      subst (λ x. IsAtLeast (role_of x (step project role best)) least)
        ((eq_iff project other).0 same)
        (own (ap (λ x. role_of x best) ((eq_iff project other).0 same) ∙ e))
  | inr differ ↦ (found, step_other other project role best differ ∙ e, bound)
]
  where
    own :
        role_of project best ≡ some found
        → IsAtLeast (role_of project (step project role best)) least
    own e = elim (Bool-cases (ltb (rank_role found) (rank_role role))) [
      | inl better ↦ rw e (rw better (role, role_of-put project role best, ground arith))
      | inr worse ↦ rw e (rw worse (found, e, bound))
    ]

best_roles_keep :
    (rows : List (String × String)) (best : Best) (project least : String)
    → IsAtLeast (role_of project best) least
    → IsAtLeast (role_of project (best_roles rows best)) least
unfolding best_roles
best_roles_keep [] best project least h = h
best_roles_keep ((q, role) ∷ rows) best project least h =
    best_roles_keep rows (step q role best) project least (step_keeps project q role least best h)

pub best_roles_reach :
    (rows : List (String × String)) (best : Best) (project role : String)
    → Member (project, role) rows
    → IsAtLeast (role_of project (best_roles rows best)) role
unfolding best_roles
best_roles_reach [] best project role m = elim m [ ]
best_roles_reach ((q, first) ∷ rows) best project role (inl e) =
    best_roles_keep rows (step q first best) project role
      (subst (λ x. IsAtLeast (role_of (x.0) (step q first best)) (x.1)) e (step_own q first best))
best_roles_reach ((q, first) ∷ rows) best project role (inr m) =
    best_roles_reach rows (step q first best) project role m

step_source :
    (project q first role : String) (best : Best)
    → role_of project (step q first best) ≡ some role
    → (◌≡◌ {A = String × String} (q, first) (project, role)) ⊎ (role_of project best ≡ some role)
step_source project q first role best h = elim (Bool-cases (wins first (role_of q best))) [
  | inr lost ↦ inr (rw lost at h)
  | inl won ↦ put (Bool-cases (q == project)) (rw won at h)
]
  where
    put :
        ((q == project) ≡ true) ⊎ ((q == project) ≡ false)
        → role_of project (put_role q first best) ≡ some role
        → (◌≡◌ {A = String × String} (q, first) (project, role))
          ⊎ (role_of project best ≡ some role)
    put (inl same) k =
        let stored : role_of project (put_role q first best) ≡ some first =
          ap (λ x. role_of x (put_role q first best)) (sym ((eq_iff q project).0 same))
          ∙ role_of-put q first best in
        inl (ap₂ (λ a b. (a, b)) ((eq_iff q project).0 same) (some_inj (sym stored ∙ k)))
    put (inr differ) k = inr (sym (role_of-put_other project q first best differ) ∙ k)

best_roles_source :
    (rows : List (String × String)) (best : Best) (project role : String)
    → role_of project (best_roles rows best) ≡ some role
    → Member (project, role) rows ⊎ (role_of project best ≡ some role)
unfolding best_roles
best_roles_source [] best project role h = inr h
best_roles_source ((q, first) ∷ rows) best project role h =
    go (best_roles_source rows (step q first best) project role h)
  where
    go :
        Member (project, role) rows ⊎ (role_of project (step q first best) ≡ some role)
        → Member (project, role) ((q, first) ∷ rows) ⊎ (role_of project best ≡ some role)
    go (inl m) = inl (inr m)
    go (inr e) = elim (step_source project q first role best e) [
      | inl same ↦ inl (inl same)
      | inr old ↦ inr old
    ]

-- The rows of one project.
abbrev pub IsBestRole : List (String × String) → String → String → Type 0
IsBestRole rows project role =
    Member (project, role) rows
    × ((other : String) → Member (project, other) rows → rank_role other ≤ rank_role role)

pub best_roles-IsBestRole :
    (rows : List (String × String)) (project role : String)
    → role_of project (best_roles rows []) ≡ some role
    → IsBestRole rows project role
best_roles-IsBestRole rows project role h = (
  listed (best_roles_source rows [] project role h),
  λ other m. most other (best_roles_reach rows [] project other m),
)
  where
    listed : Member (project, role) rows ⊎ (none ≡ some role) → Member (project, role) rows
    listed (inl m) = m
    listed (inr e) = cc

    most :
        (other : String)
        → IsAtLeast (role_of project (best_roles rows [])) other
        → rank_role other ≤ rank_role role
    most other (found, e, bound) =
        subst (λ r. rank_role other ≤ rank_role r) (some_inj (sym e ∙ h)) bound

-- A key of the loop's result has a role.
pub keyed :
    (best : Best) (project : String)
    → Member project (map (λ b. b.0) best)
    → (role : String) × (role_of project best ≡ some role)
keyed [] project m = elim m [ ]
keyed ((p, role) ∷ best) project m = elim (Bool-cases (p == project)) [
  | inl hit ↦ (role, rw hit refl)
  | inr miss ↦ rw miss (keyed best project (later miss m))
]
  where
    later :
        (p == project) ≡ false
        → Member project (p ∷ map (λ b. b.0) best)
        → Member project (map (λ b. b.0) best)
    later miss (inl e) = let clash : (p == project) ≡ true = (eq_iff p project).1 e in cc
    later miss (inr m) = m

-- A project that has a role is a key.
pub role_of-keyed :
    (best : Best) (project : String) {role : String}
    → role_of project best ≡ some role
    → Member project (map (λ b. b.0) best)
role_of-keyed [] project h = cc
role_of-keyed ((p, role) ∷ best) project h = elim (Bool-cases (p == project)) [
  | inl hit ↦ inl ((eq_iff p project).0 hit)
  | inr miss ↦ inr (role_of-keyed best project (rw miss at h))
]
