-- ===== src/Party/History.antt =====
-- The party graph over a history of store calls: each call may fail at any of its statements.
use agentlens.Common.{String, List, [], ◌∷◌}
use agentlens.Sql.{World, world}
use agentlens.Tables.{User, Party, PartyRelationship, Tables}
use agentlens.Party.Recursion.{RecursiveQuery}
use agentlens.Party.Store.{create_party, delete_party}
use agentlens.Party.Persons.{create_person_for_user, update_person_for_user}
use agentlens.Party.Members.{add_member, remove_member, UpdateMemberRoleParams, update_member_role}
use agentlens.Party.Invariant.{IsWellFormed}
use agentlens.Party.Invariant.Members.{
  add_member-IsWellFormed, remove_member-IsWellFormed, update_member_role-IsWellFormed,
}
use agentlens.Party.Invariant.Parties.{
  create_party-IsWellFormed, delete_party-IsWellFormed, create_person_for_user-IsWellFormed,
  update_person_for_user-IsWellFormed,
}

-- The calls that write the party tables, with the identifiers that they draw.
pub data Call : Type 0 where
  create : (fresh : String) → Party → Call
  delete : (id : String) → Call
  add : (fresh : String) → PartyRelationship → Call
  remove : (from_party_id to_party_id relationship_name : String) → Call
  change_role : UpdateMemberRoleParams → Call
  create_person : (fresh : String) → User → Call
  update_person : User → Call

module _ (engine : RecursiveQuery) where
  -- The world after a call, whether it returned or failed.
  unfoldable pub call : Call → World Tables → World Tables
  call (create fresh p) w = world (create_party fresh p w)
  call (delete id) w = world (delete_party engine id w)
  call (add fresh rel) w = world (add_member engine fresh rel w)
  call (remove from to name) w = world (remove_member engine from to name w)
  call (change_role params) w = world (update_member_role params w)
  call (create_person fresh u) w = world (create_person_for_user fresh u w)
  call (update_person u) w = world (update_person_for_user u w)

  unfoldable pub calls : List Call → World Tables → World Tables
  unfolding call
  calls [] w = w
  calls (c ∷ cs) w = calls cs (call c w)

  call-IsWellFormed :
      (c : Call) (w : World Tables) → IsWellFormed w.tables → IsWellFormed (call c w).tables
  unfolding call
  call-IsWellFormed (create fresh p) w v = (create_party-IsWellFormed fresh p).after w v
  call-IsWellFormed (delete id) w v = (delete_party-IsWellFormed engine id).after w v
  call-IsWellFormed (add fresh rel) w v = (add_member-IsWellFormed engine fresh rel).after w v
  call-IsWellFormed (remove from to name) w v =
      (remove_member-IsWellFormed engine from to name).after w v
  call-IsWellFormed (change_role params) w v = (update_member_role-IsWellFormed params).after w v
  call-IsWellFormed (create_person fresh u) w v =
      (create_person_for_user-IsWellFormed fresh u).after w v
  call-IsWellFormed (update_person u) w v = (update_person_for_user-IsWellFormed u).after w v

  -- Whatever calls are made in whatever order, and whichever of their statements fail: if the
  -- closure table has exactly the pairs that containment edges join and no party contains itself
  -- before, then so after.
  pub calls-IsWellFormed :
      (cs : List Call) (w : World Tables) → IsWellFormed w.tables → IsWellFormed (calls cs w).tables
  unfolding calls
  calls-IsWellFormed [] w v = v
  calls-IsWellFormed (c ∷ cs) w v = calls-IsWellFormed cs (call c w) (call-IsWellFormed c w v)
