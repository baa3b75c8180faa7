-- ===== src/Party/Guards.antt =====
-- The guards of AddMember and its insertion where no statement fails: what lets an edge through, and
-- what each refuses.
use agentlens.Common.{
  codes, any_of_Member, find?, find?-some, find?-none, Option, none, some, eq_refl, ◌≡◌, ◌≢◌, refl,
  subst, ◌∙◌, ◌⊎◌, inl, inr, Bool, true, false, filter, ltb, length, any, any-true, Member,
  filter_empty_iff, Bool-cases, ◌==◌, eq_iff, ==-false, arith,
}
use agentlens.Sql.{Error, done, raised, calm, raise, database, wrap}
use agentlens.Sql.Laws.{if_run_true, if_run_false, bind_run, context_run, statement_calm}
use agentlens.Tables.{PartyRelationship, Tables}
use agentlens.Party.Store.{closure_row}
use agentlens.Party.Members.{
  same_edge, way_back, self_loop, would_cycle, check_containment, stored_edge, taken_edge,
  found_or_new, insert_edge,
}

module _ (rel : PartyRelationship) (t : Tables) where
  no_rows :
      ¬ Member (closure_row (rel.to_party_id, rel.from_party_id)) t.closures
      → ltb 0 (length (filter (way_back rel) t.closures)) ≡ false
  no_rows h = go (any (way_back rel) t.closures) refl
    where
      go :
          (b : Bool)
          → any (way_back rel) t.closures ≡ b
          → ltb 0 (length (filter (way_back rel) t.closures)) ≡ false
      go true e =
          let (c, m, passed) = any-true (way_back rel) t.closures e in
          absurd (
            h (
              subst (λ z. Member z t.closures)
                (ground (
                  arith,
                  eq_iff c.member_party_id rel.to_party_id,
                  eq_iff c.ancestor_party_id rel.from_party_id,
                ))
                m))
      go false e = ground (arith, filter_empty_iff (way_back rel) t.closures)

  pub check_containment-calm :
      rel.from_party_id ≢ rel.to_party_id
      → ¬ Member (closure_row (rel.to_party_id, rel.from_party_id)) t.closures
      → check_containment rel (calm t) ≡ done tt (calm t)
  unfolding check_containment
  check_containment-calm differ no_way =
      if_run_false (raise (self_loop rel)) _ (calm t) (==-false _ _ differ)
      ∙ bind_run _ _ (context_run _ _ (statement_calm _ t))
      ∙ if_run_false _ _ (calm t) (no_rows no_way)

  pub check_containment-loop :
      rel.from_party_id ≡ rel.to_party_id
      → check_containment rel (calm t) ≡ raised (self_loop rel) (calm t)
  unfolding check_containment
  check_containment-loop loop =
      if_run_true (raise (self_loop rel)) _ (calm t)
        ((eq_iff rel.from_party_id rel.to_party_id).1 loop)

  pub check_containment-cycle :
      rel.from_party_id ≢ rel.to_party_id
      → Member (closure_row (rel.to_party_id, rel.from_party_id)) t.closures
      → check_containment rel (calm t) ≡ raised (would_cycle rel) (calm t)
  unfolding check_containment
  check_containment-cycle differ way =
      let row = closure_row (rel.to_party_id, rel.from_party_id) in
      let counted =
        any_of_Member (way_back rel) t.closures row way
          (ground (arith, eq_refl rel.to_party_id, eq_refl rel.from_party_id)) in
      let positive : ltb 0 (length (filter (way_back rel) t.closures)) ≡ true =
        ground (arith, filter_empty_iff (way_back rel) t.closures) in
      if_run_false (raise (self_loop rel)) _ (calm t) (==-false _ _ differ)
      ∙ bind_run _ _ (context_run _ _ (statement_calm _ t))
      ∙ if_run_true (raise (would_cycle rel)) _ (calm t) positive

  -- The row with the identifier and the five columns is there, or no row has the one or the others.
  abbrev pub IsStorable : Type 0
  IsStorable =
      ((r : PartyRelationship) × Member r t.relationships
        × (r.id ≡ rel.id)
        × (same_edge rel r ≡ true))
      ⊎ ((r : PartyRelationship)
          → Member r t.relationships
          → (r.id ≢ rel.id) × (same_edge rel r ≡ false))

  untaken :
      any (taken_edge rel) t.relationships ≡ false
      → (r : PartyRelationship) → Member r t.relationships
      → (r.id ≢ rel.id) × (same_edge rel r ≡ false)
  untaken none_taken r m = elim (Bool-cases (taken_edge rel r)) [
    | inl taken ↦ let clash = any_of_Member (taken_edge rel) t.relationships r m taken in cc
    | inr free ↦ (
      λ e. let hit : (r.id == rel.id) ≡ true = (eq_iff r.id rel.id).1 e in ground arith,
      ground arith,
    )
  ]

  pub inserted-IsStorable :
      (p : PartyRelationship × Tables) → insert_edge rel t ≡ some p → IsStorable
  inserted-IsStorable p h =
      go (find? (stored_edge rel) t.relationships) (any (taken_edge rel) t.relationships) refl refl
        h
    where
      go :
          (o : Option PartyRelationship) (taken : Bool)
          → find? (stored_edge rel) t.relationships ≡ o
          → any (taken_edge rel) t.relationships ≡ taken
          → found_or_new rel t o taken ≡ some p
          → IsStorable
      go (some r) taken e k h =
          let (m, hit) = find?-some (stored_edge rel) t.relationships r e in
          inl (r, m, (eq_iff r.id rel.id).0 (ground arith), ground arith)
      go none true e k h = cc
      go none false e k h = inr (untaken k)

  pub IsStorable-insert :
      IsStorable → (p : PartyRelationship × Tables) × (insert_edge rel t ≡ some p)
  IsStorable-insert storable =
      go (find? (stored_edge rel) t.relationships) (any (taken_edge rel) t.relationships) refl refl
        storable
    where
      go :
          (o : Option PartyRelationship) (taken : Bool)
          → find? (stored_edge rel) t.relationships ≡ o
          → any (taken_edge rel) t.relationships ≡ taken
          → IsStorable
          → (p : PartyRelationship × Tables) × (found_or_new rel t o taken ≡ some p)
      go (some r) taken e k s = (_, refl)
      go none false e k s = (_, refl)
      go none true e k (inl (r, m, same_id, same)) =
          let missed = find?-none (stored_edge rel) t.relationships r e m in
          let hit : (r.id == rel.id) ≡ true = (eq_iff r.id rel.id).1 same_id in
          absurd (ground arith)
      go none true e k (inr free) =
          let (r, m, taken) = any-true (taken_edge rel) t.relationships k in
          let (other_id, other) = free r m in
          let miss : (r.id == rel.id) ≡ false = ==-false r.id rel.id other_id in
          absurd (ground arith)

  pub insert_edge-refused : ¬ IsStorable → insert_edge rel t ≡ none
  insert_edge-refused taken = go (insert_edge rel t) refl
    where
      go :
          (o : Option (PartyRelationship × Tables))
          → insert_edge rel t ≡ o
          → insert_edge rel t ≡ none
      go none h = h
      go (some p) h = absurd (taken (inserted-IsStorable p h))

-- What the insertion says that a constraint refuses.
abbrev pub not_stored : Error
not_stored = wrap (codes "adding member relationship") (database (codes "constraint failed"))
