-- ===== src/Party/Store.antt =====
-- internal/store/party_store.go. What
-- `uuid.New` draws is the argument `fresh`. `First` with a condition gives the first row that
-- passes it, `FirstOrCreate` that row or a new one; a `Where` chain ends in a read or a write of
-- the rows that pass. The quotes of `%q` are left out of messages.
use agentlens.Common.{
  String, Bool, false, ◌&&◌, ◌||◌, not, Option, none, some, List, [], ◌∷◌, ◌++◌, map, ltb, filter,
  any, find?, length, codes, ◌==◌, if◌then◌else◌,
}
use agentlens.Sql.{
  plain, M, ◌>>=◌, ◌>>◌, return, raise, context, attempt, query, execute, transaction,
}
use agentlens.Tables.{
  Party, PartyRelationship, PartyGroupClosure, Tables, valid_party_kinds, one_of,
  containment_relationship_names,
}
use agentlens.Party.Graph.{Edge}
use agentlens.Party.Recursion.{RecursiveQuery}

-- `value = ?` on a column that may be NULL.
abbrev pub is_value : Option String → String → Bool
is_value none v = false
is_value (some u) v = u == v

-- A unique column takes any number of NULLs.
abbrev pub same_value : Option String → Option String → Bool
same_value u none = false
same_value u (some v) = is_value u v

-- INSERT INTO parties: the primary key and the unique user_id are not there yet.
abbrev pub insert_party : Party → Tables → Option (Unit {0} × Tables)
insert_party p t =
    if any (λ q. q.id == p.id || same_value q.user_id p.user_id) t.parties
    then none
    else some (tt, record t { parties = t.parties ++ p ∷ [] })

unfoldable pub create_party : String → Party → M Tables Party
create_party fresh p0 =
    if not (one_of valid_party_kinds p0.kind)
    then raise (plain (codes "invalid party kind: " ++ codes p0.kind))
    else let p = if p0.id == "" then record p0 { id = fresh } else p0 in
      do context "creating party" (attempt (insert_party p)); return p

unfoldable pub get_party : String → M Tables (Option Party)
get_party id = context "getting party" (query (λ t. find? (λ p. p.id == id) t.parties))

unfoldable pub get_party_by_user_id : String → M Tables (Option Party)
get_party_by_user_id user_id =
    context "getting party by user id"
      (query (λ t. find? (λ p. is_value p.user_id user_id) t.parties))

unfoldable pub list_parties : String → M Tables (List Party)
list_parties kind =
    context "listing parties"
      (query (λ t. if kind == "" then t.parties else filter (λ p. p.kind == kind) t.parties))

unfoldable pub ancestor_group_ids : String → M Tables (List String)
ancestor_group_ids party_id = context "loading ancestor group ids" (
    query (λ t.
      map (λ c. c.ancestor_party_id) (filter (λ c. c.member_party_id == party_id) t.closures)))

-- SELECT from_party_id, to_party_id FROM party_relationships WHERE relationship_name IN (names)
abbrev pub edges_named : List String → List PartyRelationship → List Edge
edges_named names rels =
    map (λ r. (r.from_party_id, r.to_party_id))
      (filter (λ r. one_of names r.relationship_name) rels)

-- SELECT DISTINCT
abbrev pub distinct : List Edge → List Edge
distinct [] = []
distinct (e ∷ es) = if any (λ f. f.0 == e.0 && f.1 == e.1) es then distinct es else e ∷ distinct es

abbrev pub closure_row : Edge → PartyGroupClosure
closure_row e = record { member_party_id = e.0; ancestor_party_id = e.1 }

abbrev pub touches : String → PartyRelationship → Bool
touches id r = r.from_party_id == id || r.to_party_id == id

-- The statements of the cascade of a deletion.
abbrev pub drop_relationships : String → Tables → Tables
drop_relationships id t = record t {
  relationships = filter (λ r. not (touches id r)) t.relationships;
}

abbrev pub drop_global_roles : String → Tables → Tables
drop_global_roles id t = record t {
  global_roles = filter (λ g. not (g.party_id == id)) t.global_roles;
}

abbrev pub drop_memberships : String → Tables → Tables
drop_memberships id t = record t {
  memberships = filter (λ m. not (m.project_party_id == id)) t.memberships;
}

abbrev pub drop_party : String → Tables → Tables
drop_party id t = record t { parties = filter (λ p. not (p.id == id)) t.parties }

module _ (engine : RecursiveQuery) where
  -- The INSERT … WITH RECURSIVE … statement; `names` stands in both of its IN clauses.
  abbrev pub insert_closures : List String → Tables → Tables
  insert_closures names t =
      let edges = edges_named names t.relationships in
      record t { closures = t.closures ++ map closure_row (distinct (engine.rows edges edges)) }

  unfoldable pub rebuild_named : List String → M Tables (Unit {0})
  rebuild_named names = do
    context "clearing party_group_closures" (execute (λ t. record t { closures = [] }))
    if ltb 0 (length names) then execute (insert_closures names) else return tt

  unfoldable pub rebuild_all_closures : M Tables (Unit {0})
  unfolding rebuild_named
  rebuild_all_closures = rebuild_named containment_relationship_names

  abbrev pub delete_found : String → Option Party → M Tables (Unit {0})
  delete_found id none = raise (plain (codes "party " ++ codes id ++ codes " not found"))
  delete_found id (some party) =
      if party.is_system
      then raise
          (plain (codes "party " ++ codes id ++ codes " is a system party and cannot be deleted"))
      else do
        context "deleting relationships for party" (execute (drop_relationships id))
        context "deleting global party roles" (execute (drop_global_roles id))
        context "deleting catalog project memberships" (execute (drop_memberships id))
        context "rebuilding closure after party deletion" rebuild_all_closures
        context "deleting party" (execute (drop_party party.id))

  unfoldable pub delete_party_tx : String → M Tables (Unit {0})
  delete_party_tx id =
      context "finding party" (query (λ t. find? (λ p. p.id == id) t.parties)) >>= delete_found id

  unfoldable pub delete_party : String → M Tables (Unit {0})
  delete_party id = transaction (delete_party_tx id)
