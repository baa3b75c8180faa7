-- ===== src/Party/Members.antt =====
-- internal/store/party_store_members.go.
use agentlens.Common.{
  ℕ, String, Bool, true, false, ◌&&◌, ◌||◌, not, Option, none, some, List, [], ◌∷◌, ◌++◌, ltb,
  filter, any, find?, update, length, codes, ◌==◌, if◌then◌else◌,
}
use agentlens.Sql.{
  Error, plain, detail, member_not_found, M, ◌>>=◌, ◌>>◌, return, raise, context, attempt, query,
  execute, transaction,
}
use agentlens.Tables.{PartyRelationship, PartyGroupClosure, Tables, is_containment}
use agentlens.Party.Recursion.{RecursiveQuery}
use agentlens.Party.Store.{rebuild_all_closures}

-- The columns of the unique index idx_party_rel_unique.
abbrev pub same_edge : PartyRelationship → PartyRelationship → Bool
same_edge rel r =
    r.from_party_id == rel.from_party_id
    && r.from_role == rel.from_role
    && r.to_party_id == rel.to_party_id
    && r.to_role == rel.to_role
    && r.relationship_name == rel.relationship_name

-- The closure rows that say that `rel` would close a cycle: its end is a member of its beginning.
abbrev pub way_back : PartyRelationship → PartyGroupClosure → Bool
way_back rel c = c.member_party_id == rel.to_party_id && c.ancestor_party_id == rel.from_party_id

abbrev pub count_way_back : PartyRelationship → M Tables ℕ
count_way_back rel =
    context "cycle detection" (query (λ t. length (filter (way_back rel) t.closures)))

abbrev pub self_loop : PartyRelationship → Error
self_loop rel =
    plain (codes "cannot add party " ++ (codes rel.from_party_id ++ codes " as member of itself"))

abbrev pub would_cycle : PartyRelationship → Error
would_cycle rel = plain (
    codes "adding "
    ++ (codes rel.from_party_id
        ++ (codes " → " ++ (codes rel.to_party_id ++ codes " would create a cycle"))))

-- The guards of a containment edge.
unfoldable pub check_containment : PartyRelationship → M Tables (Unit {0})
check_containment rel =
    if rel.from_party_id == rel.to_party_id
    then raise (self_loop rel)
    else do count ← count_way_back rel; if ltb 0 count then raise (would_cycle rel) else return tt

-- What `FirstOrCreate` finds: the identifier is set, so it is a condition of the search as the five
-- columns are.
abbrev pub stored_edge : PartyRelationship → PartyRelationship → Bool
stored_edge rel r = r.id == rel.id && same_edge rel r

-- The primary key and the unique index.
abbrev pub taken_edge : PartyRelationship → PartyRelationship → Bool
taken_edge rel r = r.id == rel.id || same_edge rel r

-- The row that was found, or the new one, which the indexes may refuse.
abbrev pub found_or_new :
    PartyRelationship
    → Tables
    → Option PartyRelationship
    → Bool
    → Option (PartyRelationship × Tables)
found_or_new rel t (some r) taken = some (r, t)
found_or_new rel t none true = none
found_or_new rel t none false = some (rel, record t { relationships = t.relationships ++ rel ∷ [] })

-- `FirstOrCreate`
abbrev pub insert_edge : PartyRelationship → Tables → Option (PartyRelationship × Tables)
insert_edge rel t =
    found_or_new rel t (find? (stored_edge rel) t.relationships)
      (any (taken_edge rel) t.relationships)

-- The identifier that a relationship without one gets.
abbrev pub with_id : String → PartyRelationship → PartyRelationship
with_id fresh rel = if rel.id == "" then record rel { id = fresh } else rel

abbrev pub is_edge : String → String → String → PartyRelationship → Bool
is_edge from_party_id to_party_id relationship_name r =
    r.from_party_id == from_party_id
    && r.to_party_id == to_party_id
    && r.relationship_name == relationship_name

module _ (engine : RecursiveQuery) where
  unfoldable pub add_member_tx : PartyRelationship → M Tables PartyRelationship
  add_member_tx rel = do
    if is_containment rel.relationship_name then check_containment rel else return tt
    stored ← context "adding member relationship" (attempt (insert_edge rel))
    if is_containment rel.relationship_name then rebuild_all_closures engine else return tt
    return stored

  -- The relationship comes back as the row that the table holds.
  unfoldable pub add_member : String → PartyRelationship → M Tables PartyRelationship
  add_member fresh rel = transaction (add_member_tx (with_id fresh rel))

  unfoldable pub remove_member_tx : String → String → String → M Tables (Unit {0})
  remove_member_tx from_party_id to_party_id relationship_name = do
    context "removing member relationship" (
        execute (λ t. record t {
          relationships =
              filter (λ r. not (is_edge from_party_id to_party_id relationship_name r))
                t.relationships;
        }))
    if is_containment relationship_name then rebuild_all_closures engine else return tt

  unfoldable pub remove_member : String → String → String → M Tables (Unit {0})
  remove_member from_party_id to_party_id relationship_name =
      transaction (remove_member_tx from_party_id to_party_id relationship_name)

unfoldable pub list_members : String → String → M Tables (List PartyRelationship)
list_members to_party_id relationship_name = context "listing members" (
    query (λ t.
      filter (λ r. r.to_party_id == to_party_id && r.relationship_name == relationship_name)
        t.relationships))

pub record UpdateMemberRoleParams : Type 0 where
  pub from_party_id : String
  pub to_party_id : String
  pub relationship_name : String
  pub old_role : String
  pub new_role : String

abbrev pub is_member_row : UpdateMemberRoleParams → PartyRelationship → Bool
is_member_row params r =
    r.from_party_id == params.from_party_id
    && r.to_party_id == params.to_party_id
    && r.relationship_name == params.relationship_name
    && r.from_role == params.old_role

abbrev pub set_role : UpdateMemberRoleParams → PartyRelationship → PartyRelationship
set_role params r = record r { from_role = params.new_role }

-- The unique index: two rows of one edge would end with the same role.
abbrev pub role_clashes : UpdateMemberRoleParams → PartyRelationship → List PartyRelationship → Bool
role_clashes params r rels =
    any (λ other. not (is_member_row params other) && same_edge (set_role params r) other) rels

-- The UPDATE, with the number of rows that it changed.
abbrev pub update_role_rows : UpdateMemberRoleParams → Tables → Option (Bool × Tables)
update_role_rows params t =
    let rows = filter (is_member_row params) t.relationships in
    if any (λ r. role_clashes params r t.relationships) rows
    then none
    else some (
      ltb 0 (length rows),
      record t { relationships = update (is_member_row params) (set_role params) t.relationships },
    )

unfoldable pub update_member_role : UpdateMemberRoleParams → M Tables (Unit {0})
update_member_role params = do
  changed ← context "updating member role" (attempt (update_role_rows params))
  if changed
      then return tt
      else raise (
          detail member_not_found (
            codes "from="
            ++ (codes params.from_party_id
                ++ (codes " to="
                    ++ (codes params.to_party_id
                        ++ (codes " relationship="
                            ++ (codes params.relationship_name
                                ++ (codes " role=" ++ codes params.old_role))))))))
