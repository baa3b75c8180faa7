-- ===== src/Party/Guarantees.antt =====
-- When AddMember accepts a containment edge, and how it refuses one.
use agentlens.Common.{
  String, sym, ap, some, ◌≡◌, ◌≢◌, ◌↔◌, refl, ◌∙◌, ◌⊎◌, inl, inr, true, false, Member, Bool-cases,
  ◌==◌,
}
use agentlens.Sql.{Error, World, done, raised, calm, transaction}
use agentlens.Sql.Laws.{
  if-done, if_run_true, bind_run, context_run, statement_calm, attempt_calm, attempt_refused,
  bind_refused, context_refused, transaction_refused, transaction-done, transaction_calm,
}
use agentlens.Tables.{PartyRelationship, Tables, is_containment}
use agentlens.Party.Graph.{Chain}
use agentlens.Party.Recursion.{RecursiveQuery}
use agentlens.Party.Store.{closure_row, rebuild_all_closures}
use agentlens.Party.Members.{
  self_loop, would_cycle, insert_edge, with_id, add_member_tx, add_member,
}
use agentlens.Party.Closure.{containment_edges, rebuilt}
use agentlens.Party.Invariant.{IsWellFormed}
use agentlens.Party.Invariant.Members.{check_containment-done, add_member_tx-done}
use agentlens.Party.Guards.{
  IsStorable, check_containment-calm, check_containment-loop, check_containment-cycle,
  inserted-IsStorable, IsStorable-insert, insert_edge-refused, not_stored,
}

-- What an edge with its effective identifier is refused for, in the order of the checks.
abbrev Refusal : PartyRelationship → Tables → Error → Type 0
Refusal rel t e =
    ((rel.from_party_id ≡ rel.to_party_id) × (e ≡ self_loop rel))
    ⊎ (((rel.from_party_id ≢ rel.to_party_id)
          × Chain (containment_edges t.relationships) rel.to_party_id rel.from_party_id
          × (e ≡ would_cycle rel))
        ⊎ ((rel.from_party_id ≢ rel.to_party_id)
            × (¬ Chain (containment_edges t.relationships) rel.to_party_id rel.from_party_id)
            × (¬ IsStorable rel t)
            × (e ≡ not_stored)))

module _ (engine : RecursiveQuery) where
  rebuild_calm :
      (t : Tables) → rebuild_all_closures engine (calm t) ≡ done tt (calm (rebuilt engine t))
  unfolding rebuild_all_closures
  rebuild_calm t = bind_run _ _ (context_run _ _ (statement_calm _ t)) ∙ statement_calm _ _

  add_member_tx-calm :
      (rel stored : PartyRelationship) (t t' : Tables)
      → is_containment rel.relationship_name ≡ true
      → rel.from_party_id ≢ rel.to_party_id
      → ¬ Member (closure_row (rel.to_party_id, rel.from_party_id)) t.closures
      → insert_edge rel t ≡ some (stored, t')
      → add_member_tx engine rel (calm t) ≡ done stored (calm (rebuilt engine t'))
  unfolding add_member_tx
  add_member_tx-calm rel stored t t' named differ no_way h =
      bind_run _ _ (if_run_true _ _ (calm t) named ∙ check_containment-calm rel t differ no_way)
      ∙ bind_run _ _ (context_run _ _ (attempt_calm (insert_edge rel) h))
      ∙ bind_run _ _ (if_run_true _ _ _ named ∙ rebuild_calm t')

  abbrev Accepted : PartyRelationship → Tables → Type 0
  Accepted rel t =
      (stored : PartyRelationship) × (w : World Tables) × (transaction (add_member_tx engine rel)
          (calm t)
        ≡ done stored w)

  abbrev IsSafeEdge : PartyRelationship → Tables → Type 0
  IsSafeEdge rel t =
      (rel.from_party_id ≢ rel.to_party_id)
      × (¬ Chain (containment_edges t.relationships) rel.to_party_id rel.from_party_id)
      × IsStorable rel t

  transaction_accepts_iff :
      (rel : PartyRelationship) (t : Tables)
      → IsWellFormed t
      → is_containment rel.relationship_name ≡ true
      → Accepted rel t ↔ IsSafeEdge rel t
  transaction_accepts_iff rel t v named = (to, from)
    where
      to : Accepted rel t → IsSafeEdge rel t
      to (stored, w, h) =
          let (x, ran, same) = transaction-done _ (calm t) stored w h in
          let (w1, w2, u, u', checked, grown, rebuilding) =
            add_member_tx-done engine rel (calm t) x stored ran in
          elim (if-done (is_containment rel.relationship_name) _ _ (calm t) w1 u checked) [
            | inl (contained, c) ↦
                let (same_tables, differ, no_way) = check_containment-done rel (calm t) w1 u c in
                (
                  differ,
                  λ d. no_way ((v.accurate _ _).1 d),
                  inserted-IsStorable rel t _ (ap (insert_edge rel) (sym same_tables) ∙ grown),
                )
            | inr (other, c) ↦ cc
          ]

      from : IsSafeEdge rel t → Accepted rel t
      from (differ, no_walk, storable) =
          let ((stored, t'), h) = IsStorable-insert rel t storable in
          (
            stored,
            calm (rebuilt engine t'),
            transaction_calm _ (calm t) _ _ (
                add_member_tx-calm rel stored t t' named differ
                  (λ m. no_walk ((v.accurate _ _).0 m)) h),
          )

  -- Where no statement fails and the invariant holds, `AddMember` accepts a containment edge
  -- exactly if it is no loop, no walk leads from its end back to its beginning, and either a row of
  -- the table has its identifier and its five columns or none has the one or the others; an edge
  -- without an identifier is taken with the new one.
  pub add_member_accepts_iff :
      (fresh : String) (rel : PartyRelationship) (t : Tables)
      → IsWellFormed t
      → is_containment rel.relationship_name ≡ true
      → ((stored : PartyRelationship) × (w : World Tables) × (add_member engine fresh rel (calm t)
            ≡ done stored w))
        ↔ ((rel.from_party_id ≢ rel.to_party_id)
            × (¬ Chain (containment_edges t.relationships) rel.to_party_id rel.from_party_id)
            × IsStorable (with_id fresh rel) t)
  unfolding add_member
  add_member_accepts_iff fresh rel t v named = elim (Bool-cases (rel.id == "")) [
    | inl e ↦ rw e (transaction_accepts_iff (record rel { id = fresh }) t v named)
    | inr e ↦ rw e (transaction_accepts_iff rel t v named)
  ]

  add_member_tx-refuses :
      (rel : PartyRelationship) (t : Tables) (e : Error)
      → IsWellFormed t
      → is_containment rel.relationship_name ≡ true
      → Refusal rel t e
      → add_member_tx engine rel (calm t) ≡ raised e (calm t)
  unfolding add_member_tx
  add_member_tx-refuses rel t e v named (inl (loop, same)) =
      bind_refused _ _ (if_run_true _ _ (calm t) named ∙ check_containment-loop rel t loop)
      ∙ ap (λ x. raised x (calm t)) (sym same)
  add_member_tx-refuses rel t e v named (inr (inl (differ, walk, same))) =
      bind_refused _ _ (
        if_run_true _ _ (calm t) named
        ∙ check_containment-cycle rel t differ ((v.accurate _ _).1 walk))
      ∙ ap (λ x. raised x (calm t)) (sym same)
  add_member_tx-refuses rel t e v named (inr (inr (differ, no_walk, taken, same))) =
      bind_run _ _ (
        if_run_true _ _ (calm t) named
        ∙ check_containment-calm rel t differ (λ m. no_walk ((v.accurate _ _).0 m)))
      ∙ bind_refused _ _ (
          context_refused _ _ (attempt_refused (insert_edge rel) (insert_edge-refused rel t taken)))
      ∙ ap (λ x. raised x (calm t)) (sym same)

  -- Where no statement fails and the invariant holds, `AddMember` refuses a containment edge, with
  -- its effective identifier, by the error of a self-membership where its ends are the same, else by
  -- the error of a cycle where a walk leads from its end back to its beginning, else by the wrapped
  -- error of the table where the row cannot be stored; all tables are then as before.
  pub add_member_refuses :
      (fresh : String) (rel : PartyRelationship) (t : Tables) (e : Error)
      → IsWellFormed t
      → is_containment rel.relationship_name ≡ true
      → Refusal (with_id fresh rel) t e
      → add_member engine fresh rel (calm t) ≡ raised e (calm t)
  unfolding add_member
  add_member_refuses fresh rel t e v named refusal = transaction_refused _ (calm t) e (calm t) (
      add_member_tx-refuses (with_id fresh rel) t e v
        (ap is_containment (named_alike (Bool-cases (rel.id == ""))) ∙ named) refusal)
    where
      named_alike :
          ((rel.id == "") ≡ true) ⊎ ((rel.id == "") ≡ false)
          → (with_id fresh rel).relationship_name ≡ rel.relationship_name
      named_alike (inl e) = rw e refl
      named_alike (inr e) = rw e refl
