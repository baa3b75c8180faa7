-- ===== src/Party/Handlers/Answers.antt =====
-- What the answers of AddMemberHandler say.
use agentlens.Common.{
  ℕ, String, ◌≡◌, refl, ap, ◌∙◌, Bool, true, false, not, ◌||◌, Option, none, some, find?, Text,
  if◌then◌else◌, ◌==◌, eq_iff, arith,
}
use agentlens.Sql.{message, World, Outcome, done, raised}
use agentlens.Sql.Laws.{context-done, statement-done}
use agentlens.Tables.{Party, PartyRelationship, Tables, one_of}
use agentlens.Party.Recursion.{RecursiveQuery}
use agentlens.Party.Store.{get_party}
use agentlens.Party.Members.{add_member}
use agentlens.Http.{error_response, sent}
use agentlens.Party.Handlers.{
  PartyKindConfig, Response, new_member, member_added, add_found, add_to, add_member_handler,
  is_conflict,
}

get_party-done :
    (id : String) (o : Option Party) (w v : World Tables)
    → get_party id w ≡ done o v
    → (find? (λ p. p.id == id) w.tables.parties ≡ o) × (w.tables ≡ v.tables)
unfolding get_party
get_party-done id o w v h = statement-done _ w o v (context-done _ _ w v o h)

-- A guard that an accepted request passed.
passed :
    {A : Type 0} (b : Bool) (status : ℕ) (text : Text) (v w' : World Tables) (s : ℕ) (a : A)
    (y : Response A)
    → (if b then (error_response status text, v) else y) ≡ (sent s a, w')
    → (b ≡ false) × (y ≡ (sent s a, w'))
passed true status text v w' s a y h = cc
passed false status text v w' s a y h = (refl, h)

module _ (engine : RecursiveQuery) (cfg : PartyKindConfig) (fresh to : String) where
  -- What an accepted request has found in the tables, and the store call that it made.
  pub record IsAccepted (party_id role : String) (w w' : World Tables) (rel : PartyRelationship)
      : Type 0 where
    pub target : Party
    pub member : Party
    pub target_found : find? (λ p. p.id == to) w.tables.parties ≡ some target
    pub target_kind : target.kind ≡ cfg.kind
    pub member_found : find? (λ p. p.id == party_id) w.tables.parties ≡ some member
    pub member_kind : one_of cfg.can_contain_kinds member.kind ≡ true
    pub role_valid : one_of cfg.valid_member_roles role ≡ true
    pub before : World Tables
    pub unchanged : w.tables ≡ before.tables
    pub added :
        add_member engine fresh (new_member engine cfg to party_id role) before ≡ done rel w'

  member_added-sent :
      (o : Outcome Tables PartyRelationship) (rel : PartyRelationship) (w' : World Tables)
      → member_added engine o ≡ (sent 201 rel, w')
      → o ≡ done rel w'
  member_added-sent (done r w) rel w' h = ground arith
  member_added-sent (raised e w) rel w' h =
      let (c, k) = passed (is_conflict engine (message e)) _ _ w w' 201 rel _ h in cc

  module _ (party_id role : String) (rel : PartyRelationship) (w' : World Tables) where
    add_found-sent :
        (o : Outcome Tables (Option Party))
        → add_found engine cfg fresh to party_id role o ≡ (sent 201 rel, w')
        → (member : Party) × (v : World Tables) × (o ≡ done (some member) v)
          × (one_of cfg.can_contain_kinds member.kind ≡ true)
          × (add_member engine fresh (new_member engine cfg to party_id role) v ≡ done rel w')
    add_found-sent (raised e w) h = cc
    add_found-sent (done none w) h = cc
    add_found-sent (done (some member) w) h =
        let (c, k) = passed (not (one_of cfg.can_contain_kinds member.kind)) _ _ w w' 201 rel _ h in
        (member, w, refl, ground arith, member_added-sent _ rel w' k)

    add_to-sent :
        (o : Outcome Tables (Option Party))
        → add_to engine cfg fresh to party_id role o ≡ (sent 201 rel, w')
        → (target : Party) × (v : World Tables) × (o ≡ done (some target) v)
          × (target.kind ≡ cfg.kind)
          × (add_found engine cfg fresh to party_id role (get_party party_id v)
              ≡ (sent 201 rel, w'))
    add_to-sent (raised e w) h = cc
    add_to-sent (done none w) h = cc
    add_to-sent (done (some target) w) h =
        let (c, k) = passed (not (target.kind == cfg.kind)) _ _ w w' 201 rel _ h in
        (target, w, refl, (eq_iff target.kind cfg.kind).0 (ground arith), k)

    calls-IsAccepted :
        (w : World Tables)
        → one_of cfg.valid_member_roles role ≡ true
        → add_to engine cfg fresh to party_id role (get_party to w) ≡ (sent 201 rel, w')
        → IsAccepted party_id role w w' rel
    calls-IsAccepted w valid h =
        let (target, v, first, kind, rest) = add_to-sent (get_party to w) h in
        let (member, v', second, allowed, added) = add_found-sent (get_party party_id v) rest in
        let (found, same) = get_party-done to (some target) w v first in
        let (found', same') = get_party-done party_id (some member) v v' second in
        record {
          target = target;
          member = member;
          target_found = found;
          target_kind = kind;
          member_found = ap (λ t. find? (λ p. p.id == party_id) t.parties) same ∙ found';
          member_kind = allowed;
          role_valid = valid;
          before = v';
          unchanged = same ∙ same';
          added = added;
        }

  -- When AddMemberHandler answers 201, whichever statements could have failed: the role is one of
  -- the kind's roles, the target was there and of the kind, the member was there and of a kind that
  -- the target may contain, and what is sent is what AddMember returned on the same tables.
  pub add_member_handler_accepts :
      (body : Option (String × String)) (w w' : World Tables) (rel : PartyRelationship)
      → add_member_handler engine cfg fresh to body w ≡ (sent 201 rel, w')
      → (party_id : String) × (role : String) × (body ≡ some (party_id, role))
        × IsAccepted party_id role w w' rel
  unfolding add_member_handler
  add_member_handler_accepts none w w' rel h = cc
  add_member_handler_accepts (some (party_id, role)) w w' rel h =
      let (c, k) = passed (party_id == "" || role == "") _ _ w w' 201 rel _ h in
      let (d, l) = passed (not (one_of cfg.valid_member_roles role)) _ _ w w' 201 rel _ k in
      (party_id, role, refl, calls-IsAccepted party_id role rel w' w (ground arith) l)
