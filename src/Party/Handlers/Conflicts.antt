-- ===== src/Party/Handlers/Conflicts.antt =====
-- How AddMemberHandler answers when the query of the cycle check fails.
use agentlens.Common.{
  String, ◌≡◌, ◌≢◌, refl, ap, ◌∙◌, true, Option, none, some, List, [], ◌∷◌, ◌++◌, find?, Text,
  codes, if_false, ◌||◌, not, ◌==◌, eq_iff, ==-false, arith,
}
use agentlens.Sql.{database, wrap, World, done, raised, ◌>>=◌, context, attempt, transaction}
use agentlens.Tables.{Party, PartyRelationship, Tables, one_of, group_kind}
use agentlens.Party.Recursion.{RecursiveQuery}
use agentlens.Party.Store.{get_party}
use agentlens.Party.Members.{check_containment, add_member_tx, add_member}
use agentlens.Http.{error_response}
use agentlens.Party.Handlers.{
  group_kind_config, new_member, member_added, add_found, add_to, add_member_handler,
}

abbrev at : Tables → List (Option Text) → World Tables
at t faults = record { tables = t; faults = faults }

read_party :
    (id : String) (t : Tables) (faults : List (Option Text))
    → get_party id (at t (none ∷ faults)) ≡ done (find? (λ p. p.id == id) t.parties) (at t faults)
unfolding get_party context attempt
read_party id t faults = refl

module _ (engine : RecursiveQuery) (fresh to party_id : String) (t : Tables) (cause : Text) where
  failed_check :
      (rel : PartyRelationship)
      → rel.relationship_name ≡ "group_member"
      → rel.from_party_id ≢ rel.to_party_id
      → add_member_tx engine rel (at t (some cause ∷ []))
        ≡ raised (wrap (codes "cycle detection") (database cause)) (at t [])
  unfolding add_member_tx check_containment ◌>>=◌ context attempt
  failed_check rel named differ = rw named (rw (==-false _ _ differ) refl)

  failed_add :
      party_id ≢ to
      → add_member engine fresh
          (new_member engine group_kind_config to party_id "member")
          (at t (some cause ∷ []))
        ≡ raised (wrap (codes "cycle detection") (database cause)) (at t [])
  unfolding add_member transaction
  failed_add differ =
      rw
        (failed_check
          (record (new_member engine group_kind_config to party_id "member") { id = fresh }) refl
          differ)
        refl

  -- For a group and a member that are there, when the query of the cycle check fails,
  -- AddMemberHandler answers 409 with the text of the failure: a failing database is taken for a
  -- conflict, and the driver's text is sent.
  pub add_member_handler_hides_failure :
      (target member : Party)
      → party_id ≢ ""
      → party_id ≢ to
      → find? (λ p. p.id == to) t.parties ≡ some target
      → target.kind ≡ group_kind
      → find? (λ p. p.id == party_id) t.parties ≡ some member
      → one_of group_kind_config.can_contain_kinds member.kind ≡ true
      → add_member_handler engine group_kind_config fresh to
          (some (party_id, "member"))
          (at t (none ∷ none ∷ some cause ∷ []))
        ≡ (error_response 409 (codes "cycle detection: " ++ cause), at t [])
  unfolding add_member_handler
  add_member_handler_hides_failure target member given differ target_found kind member_found
        allowed =
      let unnamed = ==-false party_id "" given in
      let of_kind : (target.kind == group_kind) ≡ true = (eq_iff target.kind group_kind).1 kind in
      if_false {b = party_id == "" || "member" == ""} _ _ (ground arith)
      ∙ ap (add_to engine group_kind_config fresh to party_id "member") (
          read_party to t (none ∷ some cause ∷ [])
          ∙ ap (λ o. done o (at t (none ∷ some cause ∷ []))) target_found)
      ∙ if_false _ _ (ap not of_kind)
      ∙ ap (add_found engine group_kind_config fresh to party_id "member") (
          read_party party_id t (some cause ∷ [])
          ∙ ap (λ o. done o (at t (some cause ∷ []))) member_found)
      ∙ if_false _ _ (ap not allowed)
      ∙ ap (member_added engine) (failed_add differ)
