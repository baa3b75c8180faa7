-- ===== src/Party/Invariant.antt =====
-- The invariant of the party graph: the closure table is accurate, and containment has no cycle.
pub mod Members
pub mod Parties
use agentlens.Common.{
  String, Bool-cases, if◌then◌else◌, ◌≡◌, sym, subst, ap, ◌∙◌, ◌⊎◌, inl, inr, Bool, true, false,
  List, [], ◌∷◌, ◌++◌, filter, update, refl, Member, Member-append_left, Member-of_append,
  Member-map, Member-of_map, Member-filter, Member-of_filter, arith,
}
use agentlens.Tables.{PartyRelationship, Tables, is_containment}
use agentlens.Party.Graph.{Edge, Subset, IsAcyclic, IsAcyclic-anti, Chain, Chain-mono}
use agentlens.Party.Recursion.{RecursiveQuery}
use agentlens.Party.Store.{closure_row}
use agentlens.Party.Closure.{containment_edges, IsAccurate, rebuilt, rebuilt-IsAccurate}

pub record IsWellFormed (t : Tables) : Type 0 where
  pub accurate : IsAccurate t
  pub acyclic : IsAcyclic (containment_edges t.relationships)

-- The invariant reads two tables.
pub IsWellFormed-cast :
    {s t : Tables}
    → s.relationships ≡ t.relationships
    → s.closures ≡ t.closures
    → IsWellFormed s
    → IsWellFormed t
IsWellFormed-cast {s} {t} p q v = record {
  accurate = λ a b. (
    λ m.
        subst (λ r. Chain (containment_edges r) a b) p
          ((v.accurate a b).0 (subst (Member (closure_row (a, b))) (sym q) m)),
    λ c.
        subst (Member (closure_row (a, b))) q
          ((v.accurate a b).1 (subst (λ r. Chain (containment_edges r) a b) (sym p) c)),
  );
  acyclic = subst (λ r. IsAcyclic (containment_edges r)) p v.acyclic;
}

-- What changes no containment edge and no closure row keeps the invariant.
pub IsWellFormed-same_edges :
    {s t : Tables}
    → s.closures ≡ t.closures
    → Subset (containment_edges s.relationships) (containment_edges t.relationships)
    → Subset (containment_edges t.relationships) (containment_edges s.relationships)
    → IsWellFormed s
    → IsWellFormed t
IsWellFormed-same_edges {s} {t} q to from v = record {
  accurate = λ a b. (
    λ m. Chain-mono to ((v.accurate a b).0 (subst (Member (closure_row (a, b))) (sym q) m)),
    λ c. subst (Member (closure_row (a, b))) q ((v.accurate a b).1 (Chain-mono from c)),
  );
  acyclic = IsAcyclic-anti from v.acyclic;
}

-- A rebuild makes the closure table accurate, so only cycles are left to exclude.
pub rebuilt-IsWellFormed :
    (engine : RecursiveQuery) (t : Tables)
    → IsAcyclic (containment_edges t.relationships)
    → IsWellFormed (rebuilt engine t)
rebuilt-IsWellFormed engine t h = record { accurate = rebuilt-IsAccurate engine t; acyclic = h }

abbrev pub ends : PartyRelationship → Edge
ends r = (r.from_party_id, r.to_party_id)

-- An edge is a row of a containment relationship.
pub edge-row :
    (rels : List PartyRelationship) (e : Edge)
    → Member e (containment_edges rels)
    → (r : PartyRelationship) × Member r rels
      × (is_containment r.relationship_name ≡ true)
      × (ends r ≡ e)
edge-row rels e m =
    let (r, k, same) = Member-of_map _ _ e m in
    let (n, named) = Member-of_filter _ rels r k in (r, n, named, same)

row-edge :
    (rels : List PartyRelationship) (r : PartyRelationship) (e : Edge)
    → Member r rels
    → is_containment r.relationship_name ≡ true
    → ends r ≡ e
    → Member e (containment_edges rels)
row-edge rels r e n named same =
    subst (λ z. Member z (containment_edges rels)) same
      (Member-map _ _ r (Member-filter _ rels r n named))

-- Rows that a filter takes away take edges away.
pub containment_edges-filter :
    (p : PartyRelationship → Bool) (rels : List PartyRelationship)
    → Subset (containment_edges (filter p rels)) (containment_edges rels)
containment_edges-filter p rels a b m =
    let (r, n, named, same) = edge-row (filter p rels) (a, b) m in
    row-edge rels r (a, b) (Member-of_filter p rels r n).0 named same

-- Rows that a filter takes away take no edge away, if it takes no containment row away.
pub containment_edges-filter_other :
    (p : PartyRelationship → Bool) (rels : List PartyRelationship)
    → ((r : PartyRelationship) → is_containment r.relationship_name ≡ true → p r ≡ true)
    → Subset (containment_edges rels) (containment_edges (filter p rels))
containment_edges-filter_other p rels h a b m =
    let (r, n, named, same) = edge-row rels (a, b) m in
    row-edge (filter p rels) r (a, b) (Member-filter p rels r n (h r named)) named same

-- A change of member roles changes no edge.
pub containment_edges-update :
    (p : PartyRelationship → Bool) (role : String) (rels : List PartyRelationship)
    → containment_edges (update p (λ r. record r { from_role = role }) rels)
      ≡ containment_edges rels
containment_edges-update p role [] = refl
containment_edges-update p role (r ∷ rels) = ground (arith, containment_edges-update p role rels)

module _ (rels : List PartyRelationship) (rel : PartyRelationship) where
  -- A new row adds its edge, if it is one of containment.
  pub containment_edges-concat :
      Subset (containment_edges (rels ++ rel ∷ [])) (ends rel ∷ containment_edges rels)
  containment_edges-concat a b m =
      let (r, n, named, same) = edge-row (rels ++ rel ∷ []) (a, b) m in
      go r named same (Member-of_append r rels (rel ∷ []) n)
    where
      go :
          (r : PartyRelationship)
          → is_containment r.relationship_name ≡ true
          → ends r ≡ (a, b)
          → Member r rels ⊎ Member r (rel ∷ [])
          → Member (a, b) (ends rel ∷ containment_edges rels)
      go r named same (inl n) = inr (row-edge rels r (a, b) n named same)
      go r named same (inr (inl e)) = inl (ap ends e ∙ same)
      go r named same (inr (inr n)) = elim n [ ]

  pub containment_edges-concat_other :
      is_containment rel.relationship_name ≡ false
      → Subset (containment_edges (rels ++ rel ∷ [])) (containment_edges rels)
  containment_edges-concat_other h a b m =
      let (r, n, named, same) = edge-row (rels ++ rel ∷ []) (a, b) m in
      go r named same (Member-of_append r rels (rel ∷ []) n)
    where
      go :
          (r : PartyRelationship)
          → is_containment r.relationship_name ≡ true
          → ends r ≡ (a, b)
          → Member r rels ⊎ Member r (rel ∷ [])
          → Member (a, b) (containment_edges rels)
      go r named same (inl n) = row-edge rels r (a, b) n named same
      go r named same (inr (inl e)) =
          let clash : false ≡ true =
            sym h ∙ ap (λ x. is_containment x.relationship_name) e ∙ named in
          cc
      go r named same (inr (inr n)) = elim n [ ]

  pub containment_edges_grow :
      Subset (containment_edges rels) (containment_edges (rels ++ rel ∷ []))
  containment_edges_grow a b m =
      let (r, n, named, same) = edge-row rels (a, b) m in
      row-edge (rels ++ rel ∷ []) r (a, b) (Member-append_left r rels (rel ∷ []) n) named same
