-- ===== src/Party/Invariant/Parties.antt =====
-- Creating and deleting parties keeps the invariant, and a deleted party leaves no row behind.
use agentlens.Common.{
  String, ◌≡◌, refl, sym, subst, ap, ◌∙◌, inl, inr, false, not, Option, none, some, find?, ◌==◌,
  arith,
}
use agentlens.Sql.{World, done}
use agentlens.Sql.Laws.{bind-done, context-done, statement-done, if-done}
use agentlens.Sql.Keeps.{
  Keeps, Keeps-return, Keeps-raise, Keeps-if, Keeps-context, Keeps-context_for, Keeps-query,
  Keeps-attempt, Keeps-execute, Keeps-bind, Keeps-transaction,
}
use agentlens.Tables.{User, Party, Tables, valid_party_kinds, one_of}
use agentlens.Party.Graph.{IsAcyclic-anti}
use agentlens.Party.Recursion.{RecursiveQuery}
use agentlens.Party.Store.{
  insert_party, create_party, get_party, drop_relationships, drop_global_roles, drop_memberships,
  drop_party, delete_found, delete_party_tx, delete_party,
}
use agentlens.Party.Persons.{
  person_of, create_if_absent, create_person_for_user, update_person_for_user,
}
use agentlens.Party.Closure.{rebuilt, rebuild-done}
use agentlens.Party.Invariant.{
  IsWellFormed, IsWellFormed-cast, rebuilt-IsWellFormed, containment_edges-filter,
}

insert_party-IsWellFormed :
    (p : Party) (t t' : Tables) (u : Unit {0})
    → IsWellFormed t
    → insert_party p t ≡ some (u, t')
    → IsWellFormed t'
insert_party-IsWellFormed p t t' u v h = IsWellFormed-cast {s = t} (ground arith) (ground arith) v

pub create_party-IsWellFormed :
    (fresh : String) (p : Party) → Keeps IsWellFormed (create_party fresh p)
unfolding create_party
create_party-IsWellFormed fresh p =
    Keeps-if (not (one_of valid_party_kinds p.kind)) (Keeps-raise _) (
      Keeps-bind
        (Keeps-context _ (Keeps-attempt _ (λ t t' u v h. insert_party-IsWellFormed _ t t' u v h)))
        λ u. Keeps-return _)

create_if_absent-IsWellFormed :
    (fresh : String) (u : User) (o : Option Party) → Keeps IsWellFormed (create_if_absent fresh u o)
create_if_absent-IsWellFormed fresh u none =
    Keeps-context_for _
      (Keeps-attempt _ (λ t t' r v h. insert_party-IsWellFormed (person_of fresh u) t t' r v h))
create_if_absent-IsWellFormed fresh u (some p) = Keeps-return tt

pub create_person_for_user-IsWellFormed :
    (fresh : String) (u : User) → Keeps IsWellFormed (create_person_for_user fresh u)
unfolding create_person_for_user
create_person_for_user-IsWellFormed fresh u =
    Keeps-bind (Keeps-context _ (Keeps-query _)) (create_if_absent-IsWellFormed fresh u)

pub update_person_for_user-IsWellFormed : (u : User) → Keeps IsWellFormed (update_person_for_user u)
unfolding update_person_for_user
update_person_for_user-IsWellFormed u =
    Keeps-context_for _ (Keeps-execute _ (λ t v. IsWellFormed-cast {s = t} refl refl v))

pub get_party-IsWellFormed : (id : String) → Keeps IsWellFormed (get_party id)
unfolding get_party
get_party-IsWellFormed id = Keeps-context _ (Keeps-query _)

module _ (engine : RecursiveQuery) where
  -- The tables after the cascade.
  abbrev pub erased : String → String → Tables → Tables
  erased id party_id t =
      drop_party party_id
        (rebuilt engine (drop_memberships id (drop_global_roles id (drop_relationships id t))))

  pub delete_found-done :
      (id : String) (o : Option Party) (w w' : World Tables) (u : Unit {0})
      → delete_found engine id o w ≡ done u w'
      → (party : Party) × (o ≡ some party)
        × (party.is_system ≡ false)
        × (w'.tables ≡ erased id party.id w.tables)
  delete_found-done id none w w' u h = cc
  delete_found-done id (some party) w w' u h = elim (if-done party.is_system _ _ w w' u h) [
    | inl (system, r) ↦ cc
    | inr (plain, r) ↦
        let (u1, w1, a, r1) = bind-done _ _ w w' u r in
        let (u2, w2, b, r2) = bind-done _ _ w1 w' u r1 in
        let (u3, w3, c, r3) = bind-done _ _ w2 w' u r2 in
        let (u4, w4, d, r4) = bind-done _ _ w3 w' u r3 in
        let e1 = (statement-done _ w u1 w1 (context-done _ _ w w1 u1 a)).1 in
        let e2 = (statement-done _ w1 u2 w2 (context-done _ _ w1 w2 u2 b)).1 in
        let e3 = (statement-done _ w2 u3 w3 (context-done _ _ w2 w3 u3 c)).1 in
        let e4 = rebuild-done engine w3 u4 w4 (context-done _ _ w3 w4 u4 d) in
        let e5 = (statement-done _ w4 u w' (context-done _ _ w4 w' u r4)).1 in
        (
          party,
          refl,
          plain,
          sym e5
              ∙ ap (drop_party party.id) (
                  e4
                  ∙ ap (rebuilt engine) (
                      sym e3
                      ∙ ap (drop_memberships id) (sym e2 ∙ ap (drop_global_roles id) (sym e1)))),
        )
  ]

  erased-IsWellFormed :
      (id party_id : String) (t : Tables) → IsWellFormed t → IsWellFormed (erased id party_id t)
  erased-IsWellFormed id party_id t v =
      IsWellFormed-cast
        {s = rebuilt engine (drop_memberships id (drop_global_roles id (drop_relationships id t)))}
        refl refl
        (rebuilt-IsWellFormed engine
          (drop_memberships id (drop_global_roles id (drop_relationships id t)))
          (IsAcyclic-anti (containment_edges-filter _ t.relationships) v.acyclic))

  pub delete_party_tx-done :
      (id : String) (w w' : World Tables) (u : Unit {0})
      → delete_party_tx engine id w ≡ done u w'
      → (party : Party) × (find? (λ p. p.id == id) w.tables.parties ≡ some party)
        × (party.is_system ≡ false)
        × (w'.tables ≡ erased id party.id w.tables)
  unfolding delete_party_tx
  delete_party_tx-done id w w' u h =
      let (o, w1, found, r) = bind-done _ _ w w' u h in
      let (e, f) = statement-done _ w o w1 (context-done _ _ w w1 o found) in
      let (party, same, plain, after) = delete_found-done id o w1 w' u r in
      (party, e ∙ same, plain, after ∙ ap (erased id party.id) (sym f))

  pub delete_party-IsWellFormed : (id : String) → Keeps IsWellFormed (delete_party engine id)
  unfolding delete_party
  delete_party-IsWellFormed id = Keeps-transaction λ w w' u v h.
      let (party, found, plain, after) = delete_party_tx-done id w w' u h in
      subst IsWellFormed (sym after) (erased-IsWellFormed id party.id w.tables v)
