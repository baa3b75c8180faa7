-- ===== src/Admin/UserSteps.antt =====
-- What the store calls of the creation of a user do to the users and their parties.
use agentlens.Common.{
  String, ◌≡◌, refl, sym, subst, ap, ◌∙◌, inl, inr, Bool, true, false, not, ◌||◌, Option, none,
  some, List, [], ◌∷◌, ◌++◌, filter, find?, any, Bool-cases, some_inj, ◌==◌, eq_refl, arith,
}
use agentlens.Sql.{Error, World, Outcome, done, raised, world, context, query}
use agentlens.Sql.Laws.{
  attempt-done, attempt-raised, statement-done, context-done, context_for-done, context-raised,
  bind-done,
}
use agentlens.Sql.Keeps.{
  Keeps, Keeps-return, Keeps-context, Keeps-context_for, Keeps-bind, Keeps-query, Keeps-attempt,
}
use agentlens.Tables.{Role, User, Party, Tables}
use agentlens.Party.Store.{is_value, same_value, insert_party}
use agentlens.Party.Persons.{person_of, create_if_absent, create_person_for_user}
use agentlens.Auth.Users.{
  has_user_id, has_username, insert_user, create_user, get_by_username, get_role_by_id,
}

-- The party of a user's identifier.
abbrev pub has_person : String → Tables → Bool
has_person id t = any (λ p. is_value p.user_id id) t.parties

pub create_user-done :
    (u : User) (w v : World Tables)
    → create_user u w ≡ done tt v
    → (any (λ x. x.id == u.id || x.username == u.username) w.tables.users ≡ false)
      × (v.tables.users ≡ w.tables.users ++ u ∷ [])
unfolding create_user
create_user-done u w v h =
    let ran = attempt-done (insert_user u) w tt v (context-done _ _ w v tt h) in
    elim (Bool-cases (any (λ x. x.id == u.id || x.username == u.username) w.tables.users)) [
      | inl taken ↦ let clash = rw taken at ran in cc
      | inr free ↦ (free, ap (λ t. t.users) (sym (ap (λ p. p.1) (some_inj (rw free at ran)))))
    ]

pub create_user-raised :
    (u : User) (w v : World Tables) (e : Error) → create_user u w ≡ raised e v → v.tables ≡ w.tables
unfolding create_user
create_user-raised u w v e h =
    let (cause, ran) = context-raised _ _ w v e h in attempt-raised (insert_user u) w cause v ran

-- The user's table is not touched.
create_person-Keeps :
    (us : List User) (fresh : String) (u : User)
    → Keeps (λ (t : Tables). t.users ≡ us) (create_person_for_user fresh u)
unfolding create_person_for_user
create_person-Keeps us fresh u = Keeps-bind (Keeps-context _ (Keeps-query _)) absent
  where
    absent : (o : Option Party) → Keeps (λ (t : Tables). t.users ≡ us) (create_if_absent fresh u o)
    absent (some p) = Keeps-return _
    absent none = Keeps-context_for _ (Keeps-attempt _ inserted)
      where
        inserted :
            (t t' : Tables) (a : Unit {0})
            → t.users ≡ us
            → insert_party (person_of fresh u) t ≡ some (a, t')
            → t'.users ≡ us
        inserted t t' a p e =
            elim (Bool-cases
              (any (λ q. q.id == fresh || same_value q.user_id (some u.id)) t.parties)) [
                | inl taken ↦ let clash = rw taken at e in cc
                | inr free ↦ ap (λ x. x.users) (sym (ap (λ p. p.1) (some_inj (rw free at e)))) ∙ p
              ]

pub create_person-users :
    (us : List User) (fresh : String) (u : User) (v : World Tables) (o : Outcome Tables (Unit {0}))
    → v.tables.users ≡ us
    → create_person_for_user fresh u v ≡ o
    → (world o).tables.users ≡ us
create_person-users us fresh u v o same e = rw e at ((create_person-Keeps us fresh u).after v same)

any-found_first :
    (p : Party → Bool) (ps : List Party) {x : Party} → find? p ps ≡ some x → any p ps ≡ true
any-found_first p [] h = cc
any-found_first p (y ∷ ps) h = elim (Bool-cases (p y)) [
  | inl pass ↦ rw pass refl
  | inr fails ↦ rw fails (any-found_first p ps (rw fails at h))
]

any-append_last :
    (p : Party → Bool) (ps : List Party) (x : Party) → p x ≡ true → any p (ps ++ x ∷ []) ≡ true
any-append_last p [] x h = rw h refl
any-append_last p (y ∷ ps) x h = let rest = any-append_last p ps x h in ground arith

create_if_absent-done :
    (fresh : String) (u : User) (o : Option Party) (w v : World Tables)
    → find? (λ p. is_value p.user_id u.id) w.tables.parties ≡ o
    → create_if_absent fresh u o w ≡ done tt v
    → has_person u.id v.tables ≡ true
create_if_absent-done fresh u (some p) w v h ran =
    let same : w ≡ v = ground arith in
    subst (λ x. has_person u.id x.tables ≡ true) same (any-found_first _ w.tables.parties h)
create_if_absent-done fresh u none w v h ran =
    let stored =
      attempt-done (insert_party (person_of fresh u)) w tt v (context_for-done _ _ w v tt ran) in
    elim (Bool-cases
      (any (λ q. q.id == fresh || same_value q.user_id (some u.id)) w.tables.parties)) [
        | inl taken ↦ let clash = rw taken at stored in cc
        | inr free ↦
            subst (λ t. has_person u.id t ≡ true) (ap (λ p. p.1) (some_inj (rw free at stored)))
              (any-append_last _ w.tables.parties (person_of fresh u) (eq_refl u.id))
      ]

pub create_person-done :
    (fresh : String) (u : User) (w v : World Tables)
    → create_person_for_user fresh u w ≡ done tt v
    → has_person u.id v.tables ≡ true
unfolding create_person_for_user
create_person-done fresh u w v h =
    let (o, x, first, second) = bind-done _ (create_if_absent fresh u) w v tt h in
    let (found, same) = statement-done _ w o x (context-done _ _ w x o first) in
    create_if_absent-done fresh u o x v
      (subst (λ t. find? (λ p. is_value p.user_id u.id) t.parties ≡ o) same found) second

-- A user added under a new identifier is what a deletion removes.
pub drop_last :
    (u : User) (us : List User)
    → any (λ x. x.id == u.id || x.username == u.username) us ≡ false
    → filter (λ x. not (has_user_id u.id x)) (us ++ u ∷ []) ≡ us
drop_last u [] h = rw (eq_refl u.id) refl
drop_last u (x ∷ us) h = elim (Bool-cases (x.id == u.id)) [
  | inl same ↦ let clash = rw same at h in cc
  | inr other ↦ rw other (ap (λ l. x ∷ l) (drop_last u us (ground arith)))
]

-- A store's read keeps the users.
pub by_username-users :
    (us : List User) (name : String) (w : World Tables) (o : Outcome Tables (Option User))
    → w.tables.users ≡ us
    → get_by_username name w ≡ o
    → (world o).tables.users ≡ us
unfolding get_by_username
by_username-users us name w o same e = rw e at (kept.after w same)
  where
    kept :
        Keeps
          (λ (t : Tables). t.users ≡ us)
          (context "getting user by username" (query (λ t. find? (has_username name) t.users)))
    kept = Keeps-context _ (Keeps-query _)

pub role_by_id-users :
    (us : List User) (id : String) (w : World Tables) (o : Outcome Tables (Option Role))
    → w.tables.users ≡ us
    → get_role_by_id id w ≡ o
    → (world o).tables.users ≡ us
unfolding get_role_by_id
role_by_id-users us id w o same e = rw e at (kept.after w same)
  where
    kept :
        Keeps
          (λ (t : Tables). t.users ≡ us)
          (context "getting role by id" (query (λ t. find? (λ r. r.id == id) t.roles)))
    kept = Keeps-context _ (Keeps-query _)
