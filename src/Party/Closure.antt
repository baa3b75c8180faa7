-- ===== src/Party/Closure.antt =====
-- What `rebuildAllClosures` leaves in the closure table.
use agentlens.Common.{
  String, ◌≡◌, sym, ap, ◌∙◌, subst, ◌↔◌, ◌⊎◌, inl, inr, Bool, true, false, ◌&&◌, List, [], ◌∷◌, any,
  Member, Member-map, Member-of_map, any-true, Bool-cases, ◌==◌, eq_iff, arith,
}
use agentlens.Sql.{World, done}
use agentlens.Sql.Laws.{bind-done, context-done, statement-done}
use agentlens.Tables.{PartyRelationship, Tables, containment_relationship_names}
use agentlens.Party.Graph.{Edge, Chain}
use agentlens.Party.Recursion.{RecursiveQuery}
use agentlens.Party.Store.{
  edges_named, distinct, closure_row, insert_closures, rebuild_all_closures,
}

-- The edges of the containment hierarchy: `from` is a member of `to`.
abbrev pub containment_edges : List PartyRelationship → List Edge
containment_edges rels = edges_named containment_relationship_names rels

-- The closure table has exactly the pairs that a walk over containment edges joins.
abbrev pub IsAccurate : Tables → Type 0
IsAccurate t =
    (a b : String)
    → Member (closure_row (a, b)) t.closures ↔ Chain (containment_edges t.relationships) a b

abbrev is_pair : Edge → Edge → Bool
is_pair e f = f.0 == e.0 && f.1 == e.1

is_pair→eq : (e f : Edge) → is_pair e f ≡ true → f ≡ e
is_pair→eq (a, b) (c, d) h = ground (arith, eq_iff c a, eq_iff d b)

distinct-Member : (es : List Edge) (e : Edge) → Member e es → Member e (distinct es)
distinct-Member [] e m = m
distinct-Member (f ∷ es) e m = go (distinct-Member es e) m (Bool-cases (any (is_pair f) es))
  where
    again : any (is_pair f) es ≡ true → f ≡ e → Member e es
    again h eq =
        let (g, k, same) = any-true (is_pair f) es h in
        subst (λ z. Member z es) (is_pair→eq f g same ∙ eq) k

    go :
        (Member e es → Member e (distinct es))
        → Member e (f ∷ es)
        → (any (is_pair f) es ≡ true) ⊎ (any (is_pair f) es ≡ false)
        → Member e (distinct (f ∷ es))
    go ih (inl eq) (inl h) = rw h (ih (again h eq))
    go ih (inr k) (inl h) = rw h (ih k)
    go ih (inl eq) (inr h) = rw h (inl eq)
    go ih (inr k) (inr h) = rw h (inr (ih k))

Member-of_distinct : (es : List Edge) (e : Edge) → Member e (distinct es) → Member e es
Member-of_distinct [] e m = m
Member-of_distinct (f ∷ es) e m = ground (arith, Member-of_distinct es e)

module _ (engine : RecursiveQuery) where
  -- The tables after a rebuild.
  abbrev pub rebuilt : Tables → Tables
  rebuilt t = insert_closures engine containment_relationship_names (record t { closures = [] })

  pub rebuild-done :
      (w : World Tables) (u : Unit {0}) (w' : World Tables)
      → rebuild_all_closures engine w ≡ done u w'
      → w'.tables ≡ rebuilt w.tables
  unfolding rebuild_all_closures
  rebuild-done w u w' h =
      let (v, x, cleared, inserted) = bind-done _ _ w w' u h in
      let (e, f) = statement-done _ w v x (context-done _ _ w x v cleared) in
      let (g, k) = statement-done _ x u w' inserted in
      sym k ∙ ap (insert_closures engine containment_relationship_names) (sym f)

  pub rebuilt-IsAccurate : (t : Tables) → IsAccurate (rebuilt t)
  rebuilt-IsAccurate t a b = (to, from)
    where
      edges : List Edge
      edges = containment_edges t.relationships

      to : Member (closure_row (a, b)) (rebuilt t).closures → Chain edges a b
      to m =
          let (e, k, p) = Member-of_map closure_row (distinct (engine.rows edges edges)) _ m in
          let n = Member-of_distinct _ e k in
          engine.sound edges edges a b (
            subst (λ z. Member z (engine.rows edges edges))
              (ap (λ r. (r.member_party_id, r.ancestor_party_id)) p) n)

      from : Chain edges a b → Member (closure_row (a, b)) (rebuilt t).closures
      from c =
          Member-map closure_row _ (a, b)
            (distinct-Member _ (a, b) (engine.complete edges edges a b c))
