-- ===== src/Party/Deletion.antt =====
-- What `DeleteParty` promises: no row of any table mentions the party afterwards, and a system
-- party or an unknown one is refused with nothing changed.
use agentlens.Common.{
  String, ◌≡◌, ◌≢◌, sym, subst, ap, ◌∙◌, true, false, not, List, filter, Member, Member-of_filter,
  find?-some, ◌==◌, eq_iff, arith,
}
use agentlens.Sql.{World, done}
use agentlens.Sql.Laws.{transaction-done}
use agentlens.Tables.{
  Party, PartyRelationship, PartyGroupClosure, GlobalPartyRole, CatalogProjectMembership, Tables,
}
use agentlens.Party.Graph.{Edge, start, join, Chain}
use agentlens.Party.Recursion.{RecursiveQuery}
use agentlens.Party.Store.{
  touches, delete_party, drop_relationships, drop_global_roles, drop_memberships,
}
use agentlens.Party.Closure.{containment_edges, rebuilt-IsAccurate}
use agentlens.Party.Invariant.{edge-row}
use agentlens.Party.Invariant.Parties.{erased, delete_party_tx-done}

pub record IsForgotten (id : String) (t : Tables) : Type 0 where
  pub party : (p : Party) → Member p t.parties → p.id ≢ id
  pub relationship :
      (r : PartyRelationship)
      → Member r t.relationships
      → (r.from_party_id ≢ id) × (r.to_party_id ≢ id)
  pub closure :
      (c : PartyGroupClosure)
      → Member c t.closures
      → (c.member_party_id ≢ id) × (c.ancestor_party_id ≢ id)
  pub global_role : (g : GlobalPartyRole) → Member g t.global_roles → g.party_id ≢ id
  pub membership : (m : CatalogProjectMembership) → Member m t.memberships → m.project_party_id ≢ id

-- A walk over edges that avoid a party avoids it.
Chain-avoids :
    {es : List Edge} {a b : String} (id : String)
    → ((x y : String) → Member (x, y) es → (x ≢ id) × (y ≢ id))
    → Chain es a b
    → (a ≢ id) × (b ≢ id)
Chain-avoids id h (start {a} {b} m) = h a b m
Chain-avoids id h (join {b} {c} d m) = ((Chain-avoids id h d).0, (h b c m).1)

untouched :
    (id : String) (r : PartyRelationship)
    → not (touches id r) ≡ true
    → (r.from_party_id ≢ id) × (r.to_party_id ≢ id)
untouched id r h = (
  λ e. ground (arith, eq_iff r.from_party_id id, eq_iff r.to_party_id id),
  λ e. ground (arith, eq_iff r.from_party_id id, eq_iff r.to_party_id id),
)

other_id : (a id : String) → not (a == id) ≡ true → a ≢ id
other_id a id h e = ground (arith, eq_iff a id)

erased-IsForgotten :
    (engine : RecursiveQuery) (id : String) (t : Tables) → IsForgotten id (erased engine id id t)
erased-IsForgotten engine id t = record {
  party = λ p m. other_id p.id id (Member-of_filter _ t.parties p m).1;
  relationship = kept;
  closure = λ c m. Chain-avoids id edges (
      (rebuilt-IsAccurate engine
          (drop_memberships id (drop_global_roles id (drop_relationships id t))) c.member_party_id
          c.ancestor_party_id).0
        m);
  global_role = λ g m. other_id g.party_id id (Member-of_filter _ t.global_roles g m).1;
  membership = λ x m. other_id x.project_party_id id (Member-of_filter _ t.memberships x m).1;
}
  where
    kept :
        (r : PartyRelationship)
        → Member r (filter (λ r. not (touches id r)) t.relationships)
        → (r.from_party_id ≢ id) × (r.to_party_id ≢ id)
    kept r m = untouched id r (Member-of_filter _ t.relationships r m).1

    edges :
        (x y : String)
        → Member (x, y) (containment_edges (filter (λ r. not (touches id r)) t.relationships))
        → (x ≢ id) × (y ≢ id)
    edges x y m =
        let (r, n, named, same) = edge-row _ (x, y) m in
        let (p, q) = kept r n in (λ e. p (ap (λ z. z.0) same ∙ e), λ e. q (ap (λ z. z.1) same ∙ e))

module _ (engine : RecursiveQuery) where
  -- A deletion that succeeds has found a party that is no system party, and afterwards no party,
  -- relationship, closure row, global role or catalog membership mentions its identifier.
  pub delete_party-IsForgotten :
      (id : String) (w w' : World Tables) (u : Unit {0})
      → delete_party engine id w ≡ done u w'
      → IsForgotten id w'.tables
        × ((party : Party) × Member party w.tables.parties
            × (party.id ≡ id)
            × (party.is_system ≡ false))
  unfolding delete_party
  delete_party-IsForgotten id w w' u h =
      let (v, ran, same) = transaction-done _ w u w' h in
      let (party, found, plain, after) = delete_party_tx-done engine id w v u ran in
      let (member, passed) = find?-some _ w.tables.parties party found in
      let named : party.id ≡ id = (eq_iff _ _).0 passed in
      let final = same ∙ after ∙ ap (λ x. erased engine id x w.tables) named in
      (
        subst (IsForgotten id) (sym final) (erased-IsForgotten engine id w.tables),
        (party, member, named, plain),
      )
