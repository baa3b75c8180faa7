-- ===== src/Party/Invariant/Members.antt =====
-- The membership operations keep the invariant of the party graph.
use agentlens.Common.{
  any, String, ◌≡◌, ◌≢◌, refl, sym, subst, ap, ◌∙◌, ◌⊎◌, inl, inr, Bool, true, false, not, Option,
  none, some, List, [], ◌∷◌, ◌++◌, ltb, length, filter, find?, update, Member, filter_empty_iff,
  any_of_Member, Bool-cases, some_inj, if◌then◌else◌, ◌==◌, eq_iff, eq_refl, arith,
}
use agentlens.Sql.{World, done, return}
use agentlens.Sql.Laws.{bind-done, context-done, attempt-done, statement-done, if-done}
use agentlens.Sql.Keeps.{
  Keeps, Keeps-transaction, Keeps-context, Keeps-query, Keeps-bind, Keeps-attempt, Keeps-if,
  Keeps-return, Keeps-raise,
}
use agentlens.Tables.{PartyRelationship, PartyGroupClosure, Tables, is_containment}
use agentlens.Party.Graph.{IsAcyclic, IsAcyclic-anti, IsAcyclic-cons, Near}
use agentlens.Party.Recursion.{RecursiveQuery}
use agentlens.Party.Store.{closure_row, rebuild_all_closures}
use agentlens.Party.Members.{
  way_back, stored_edge, taken_edge, found_or_new, check_containment, insert_edge, add_member_tx,
  add_member, is_edge, remove_member_tx, remove_member, list_members, UpdateMemberRoleParams,
  is_member_row, set_role, update_role_rows, update_member_role,
}
use agentlens.Party.Closure.{containment_edges, rebuild-done}
use agentlens.Party.Invariant.{
  IsWellFormed, IsWellFormed-same_edges, rebuilt-IsWellFormed, containment_edges-filter,
  containment_edges-filter_other, containment_edges-update, containment_edges-concat,
  containment_edges-concat_other, containment_edges_grow,
}

no_way_back :
    (rel : PartyRelationship) (rows : List PartyGroupClosure)
    → ltb 0 (length (filter (way_back rel) rows)) ≡ false
    → ¬ Member (closure_row (rel.to_party_id, rel.from_party_id)) rows
no_way_back rel rows h m =
    let row = closure_row (rel.to_party_id, rel.from_party_id) in
    let found =
      any_of_Member (way_back rel) rows row m
        (ground (arith, eq_refl rel.to_party_id, eq_refl rel.from_party_id)) in
    let pos = (filter_empty_iff (way_back rel) rows).1 found in ground arith

-- What has been checked when the guards of a containment edge let it through.
pub check_containment-done :
    (rel : PartyRelationship) (w w' : World Tables) (u : Unit {0})
    → check_containment rel w ≡ done u w'
    → (w'.tables ≡ w.tables)
      × (rel.from_party_id ≢ rel.to_party_id)
      × ¬ Member (closure_row (rel.to_party_id, rel.from_party_id)) w.tables.closures
unfolding check_containment
check_containment-done rel w w' u h =
    elim (if-done (rel.from_party_id == rel.to_party_id) _ _ w w' u h) [
      | inl (loop, r) ↦ cc
      | inr (no_loop, r) ↦
          let (count, v, counted, tested) = bind-done _ _ w w' u r in
          let (c, same) = statement-done _ w count v (context-done _ _ w v count counted) in
          elim (if-done (ltb 0 count) _ _ v w' u tested) [
            | inl (positive, z) ↦ cc
            | inr (none_found, z) ↦ (
              ground arith,
              λ e. cc ((eq_iff _ _).1 e),
              no_way_back rel w.tables.closures (subst (λ n. ltb 0 n ≡ false) (sym c) none_found),
            )
          ]
    ]

-- The row is there already, or it is added at the end.
insert_edge-cases :
    (rel stored : PartyRelationship) (t t' : Tables)
    → insert_edge rel t ≡ some (stored, t')
    → (t' ≡ t) ⊎ (t' ≡ record t { relationships = t.relationships ++ rel ∷ [] })
insert_edge-cases rel stored t t' h =
    go (find? (stored_edge rel) t.relationships) (any (taken_edge rel) t.relationships) h
  where
    go :
        (o : Option PartyRelationship) (taken : Bool)
        → found_or_new rel t o taken ≡ some (stored, t')
        → (t' ≡ t) ⊎ (t' ≡ record t { relationships = t.relationships ++ rel ∷ [] })
    go (some r) taken e = inl (sym (ap (λ p. p.1) (some_inj e)))
    go none true e = cc
    go none false e = inr (sym (ap (λ p. p.1) (some_inj e)))

-- What a new edge that passed its guards does to acyclicity.
insert_edge-IsAcyclic :
    (rel stored : PartyRelationship) (t t' : Tables)
    → IsWellFormed t
    → rel.from_party_id ≢ rel.to_party_id
    → ¬ Member (closure_row (rel.to_party_id, rel.from_party_id)) t.closures
    → insert_edge rel t ≡ some (stored, t')
    → IsAcyclic (containment_edges t'.relationships)
insert_edge-IsAcyclic rel stored t t' v distinct_ends no_way h =
    elim (insert_edge-cases rel stored t t' h) [
      | inl same ↦ subst (λ s. IsAcyclic (containment_edges s.relationships)) (sym same) v.acyclic
      | inr grown ↦
          subst (λ s. IsAcyclic (containment_edges s.relationships)) (sym grown)
            (IsAcyclic-anti (containment_edges-concat t.relationships rel)
              (IsAcyclic-cons _ _ _ v.acyclic apart))
    ]
  where
    apart : ¬ Near (containment_edges t.relationships) rel.to_party_id rel.from_party_id
    apart (inl e) = distinct_ends (sym e)
    apart (inr c) = no_way ((v.accurate _ _).1 c)

-- A row of another relationship changes no containment edge.
insert_edge-IsWellFormed :
    (rel stored : PartyRelationship) (t t' : Tables)
    → is_containment rel.relationship_name ≡ false
    → IsWellFormed t
    → insert_edge rel t ≡ some (stored, t')
    → IsWellFormed t'
insert_edge-IsWellFormed rel stored t t' other v h = elim (insert_edge-cases rel stored t t' h) [
  | inl same ↦ subst IsWellFormed (sym same) v
  | inr grown ↦ subst IsWellFormed (sym grown) (
      IsWellFormed-same_edges refl (containment_edges_grow t.relationships rel)
        (containment_edges-concat_other t.relationships rel other) v)
]

module _ (engine : RecursiveQuery) where
  -- What a committing `AddMember` has done to the tables.
  pub add_member_tx-done :
      (rel : PartyRelationship) (w w' : World Tables) (stored : PartyRelationship)
      → add_member_tx engine rel w ≡ done stored w'
      → (w1 w2 : World Tables) × (u u' : Unit {0}) × ((if is_containment rel.relationship_name
              then check_containment rel
              else return tt)
            w
          ≡ done u w1)
        × (insert_edge rel w1.tables ≡ some (stored, w2.tables))
        × ((if is_containment rel.relationship_name then rebuild_all_closures engine else return tt)
              w2
            ≡ done u' w')
  unfolding add_member_tx
  add_member_tx-done rel w w' stored h =
      let (u, w1, checked, h1) = bind-done _ _ w w' stored h in
      let (r, w2, inserted, h2) = bind-done _ _ w1 w' stored h1 in
      let (u', w3, rebuilding, h3) = bind-done _ _ w2 w' stored h2 in
      let ran = attempt-done (insert_edge rel) w1 r w2 (context-done _ _ w1 w2 r inserted) in
      let last : w3 ≡ w' = ground arith in
      let same : r ≡ stored = ground arith in
      (
        w1,
        w2,
        u,
        u',
        checked,
        ran ∙ ap (λ x. some (x, w2.tables)) same,
        rebuilding ∙ ap (done u') last,
      )

  add_member_tx-IsWellFormed :
      (rel : PartyRelationship) (w w' : World Tables) (stored : PartyRelationship)
      → IsWellFormed w.tables
      → add_member_tx engine rel w ≡ done stored w'
      → IsWellFormed w'.tables
  add_member_tx-IsWellFormed rel w w' stored v h =
      let (w1, w2, u, u', checked, grown, rebuilding) = add_member_tx-done rel w w' stored h in
      elim (if-done (is_containment rel.relationship_name) _ _ w w1 u checked) [
        | inl (named, c) ↦
            let (kept, differ, no_way) = check_containment-done rel w w1 u c in
            let inserted : insert_edge rel w.tables ≡ some (stored, w2.tables) =
              ap (insert_edge rel) (sym kept) ∙ grown in
            elim (if-done (is_containment rel.relationship_name) _ _ w2 w' u' rebuilding) [
              | inl (named', b) ↦ subst IsWellFormed (sym (rebuild-done engine w2 u' w' b)) (
                  rebuilt-IsWellFormed engine w2.tables
                    (insert_edge-IsAcyclic rel stored w.tables w2.tables v differ no_way inserted))
              | inr (other, b) ↦ cc
            ]
        | inr (other, c) ↦
            elim (if-done (is_containment rel.relationship_name) _ _ w2 w' u' rebuilding) [
              | inl (named', b) ↦ cc
              | inr (other', b) ↦
                  let before : w ≡ w1 = ground arith in
                  let after : w2 ≡ w' = ground arith in
                  subst (λ x. IsWellFormed x.tables) after
                    (insert_edge-IsWellFormed rel stored w.tables w2.tables other v
                      (ap (λ x. insert_edge rel x.tables) before ∙ grown))
            ]
      ]

  pub add_member-IsWellFormed :
      (fresh : String) (rel : PartyRelationship) → Keeps IsWellFormed (add_member engine fresh rel)
  unfolding add_member
  add_member-IsWellFormed fresh rel =
      Keeps-transaction (λ w w' stored v h. add_member_tx-IsWellFormed _ w w' stored v h)

  -- What `RemoveMember` takes away is of the named relationship.
  is_edge-named :
      (from to name : String)
      → is_containment name ≡ false
      → (r : PartyRelationship) → is_containment r.relationship_name ≡ true
      → not (is_edge from to name r) ≡ true
  is_edge-named from to name other r named = elim (Bool-cases (r.relationship_name == name)) [
    | inl e ↦
        let same : r.relationship_name ≡ name = (eq_iff _ _).0 e in
        let clash = sym named ∙ ap is_containment same ∙ other in cc
    | inr e ↦ ground arith
  ]

  remove_member_tx-IsWellFormed :
      (from to name : String) (w w' : World Tables) (u : Unit {0})
      → IsWellFormed w.tables
      → remove_member_tx engine from to name w ≡ done u w'
      → IsWellFormed w'.tables
  unfolding remove_member_tx
  remove_member_tx-IsWellFormed from to name w w' u v h =
      let (u1, w1, removed, h1) = bind-done _ _ w w' u h in
      let (e, f) = statement-done _ w u1 w1 (context-done _ _ w w1 u1 removed) in
      elim (if-done (is_containment name) _ _ w1 w' u h1) [
        | inl (named, b) ↦ subst IsWellFormed (sym (rebuild-done engine w1 u w' b)) (
            rebuilt-IsWellFormed engine w1.tables (
              subst (λ t. IsAcyclic (containment_edges t.relationships)) f
                (IsAcyclic-anti (containment_edges-filter _ w.tables.relationships) v.acyclic)))
        | inr (other, b) ↦
            let last : w1 ≡ w' = ground arith in
            subst IsWellFormed (f ∙ ap (λ x. x.tables) last) (
              IsWellFormed-same_edges refl
                (containment_edges-filter_other _ w.tables.relationships
                  (is_edge-named from to name other))
                (containment_edges-filter _ w.tables.relationships) v)
      ]

  pub remove_member-IsWellFormed :
      (from to name : String) → Keeps IsWellFormed (remove_member engine from to name)
  unfolding remove_member
  remove_member-IsWellFormed from to name =
      Keeps-transaction λ w w' u v h. remove_member_tx-IsWellFormed from to name w w' u v h

pub list_members-IsWellFormed : (to name : String) → Keeps IsWellFormed (list_members to name)
unfolding list_members
list_members-IsWellFormed to name = Keeps-context _ (Keeps-query _)

update_role_rows-IsWellFormed :
    (params : UpdateMemberRoleParams) (t t' : Tables) (b : Bool)
    → IsWellFormed t
    → update_role_rows params t ≡ some (b, t')
    → IsWellFormed t'
update_role_rows-IsWellFormed params t t' b v h =
    let same : record t {
      relationships = update (is_member_row params) (set_role params) t.relationships;
    }
        ≡ t' =
      ground arith in
    let edges = containment_edges-update (is_member_row params) params.new_role t.relationships in
    subst IsWellFormed same (
      IsWellFormed-same_edges refl (λ x y m. subst (Member (x, y)) (sym edges) m)
        (λ x y m. subst (Member (x, y)) edges m) v)

pub update_member_role-IsWellFormed :
    (params : UpdateMemberRoleParams) → Keeps IsWellFormed (update_member_role params)
unfolding update_member_role
update_member_role-IsWellFormed params =
    Keeps-bind
      (Keeps-context _
        (Keeps-attempt _ (λ t t' b v h. update_role_rows-IsWellFormed params t t' b v h)))
      λ changed. Keeps-if changed (Keeps-return tt) (Keeps-raise _)
