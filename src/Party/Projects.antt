-- ===== src/Party/Projects.antt =====
-- internal/store/party_project_store.go, party_store_role_resolution.go and the query of
-- user_store.go for the roles of groups. A join yields a row for each pair that fits.
use Prim.Native.Nat.{Ordering}
use Prim.Native.String.{compare}
use agentlens.Common.{
  ℕ, String, Bool, true, false, ◌&&◌, not, Option, none, some, List, [], ◌∷◌, ◌++◌, map, ltb,
  filter, any, join_on, codes, ◌==◌, if◌then◌else◌,
}
use agentlens.Sql.{plain, M, ◌>>=◌, return, raise, context, context_for, query, execute}
use agentlens.Tables.{
  Role, Party, PartyRelationship, CatalogProjectMembership, UserProjectMembership, Tables, one_of,
  project_kind, project_member,
}
use agentlens.Party.Store.{get_party_by_user_id}

-- `First` takes the row with the smallest primary key.
abbrev pub id_le : Party → Party → Bool
id_le p q = elim (compare p.id q.id) [ Ordering.gt ↦ false | _ ↦ true ]

abbrev pub earlier : Party → Option Party → Party
earlier p none = p
earlier p (some q) = if id_le p q then p else q

abbrev pub first_by_id : List Party → Option Party
first_by_id [] = none
first_by_id (p ∷ ps) = some (earlier p (first_by_id ps))

abbrev pub default_found : Option Party → M Tables Party
default_found none = raise (plain (codes "default project not found — was migration007 run?"))
default_found (some p) = return p

unfoldable pub get_default_project : M Tables Party
get_default_project =
    context "getting default project"
      (query (λ t. first_by_id (filter (λ p. p.kind == project_kind && p.is_system) t.parties)))
    >>= default_found

abbrev pub is_membership : String → String → CatalogProjectMembership → Bool
is_membership entry project m = m.catalog_entry_id == entry && m.project_party_id == project

-- `FirstOrCreate`
unfoldable pub assign_to_project : String → String → M Tables (Unit {0})
assign_to_project entry project = execute (λ t.
    if any (is_membership entry project) t.memberships then t else record t {
      memberships =
          t.memberships ++ record { catalog_entry_id = entry; project_party_id = project } ∷ [];
    })

unfoldable pub remove_from_project : String → String → M Tables (Unit {0})
remove_from_project entry project = execute (λ t. record t {
  memberships = filter (λ m. not (is_membership entry project m)) t.memberships;
})

unfoldable pub list_projects_for_catalog_entry : String → M Tables (List Party)
list_projects_for_catalog_entry entry = context "listing projects for catalog entry" (
    query (λ t.
      map (λ row. row.0)
        (join_on (λ p m. m.project_party_id == p.id) t.parties
          (filter (λ m. m.catalog_entry_id == entry) t.memberships))))

unfoldable pub list_catalog_entry_ids_for_project : String → M Tables (List String)
list_catalog_entry_ids_for_project project = context "listing catalog entry ids for project" (
    query (λ t.
      map (λ m. m.catalog_entry_id) (filter (λ m. m.project_party_id == project) t.memberships)))

abbrev pub is_project_role : List String → String → PartyRelationship → Bool
is_project_role from_party_ids project r =
    r.relationship_name == project_member
    && r.to_party_id == project
    && one_of from_party_ids r.from_party_id

unfoldable pub get_project_roles : List String → String → M Tables (List String)
get_project_roles [] project = return []
get_project_roles (id ∷ ids) project = context "getting project roles" (
    query
      (λ t. map (λ r. r.from_role) (filter (is_project_role (id ∷ ids) project) t.relationships)))

unfoldable pub get_roles_for_parties : List String → M Tables (List Role)
get_roles_for_parties [] = return []
get_roles_for_parties (id ∷ ids) = context "getting roles for parties" (
    query (λ t.
      map (λ row. row.0)
        (join_on (λ role g. g.role_id == role.id) t.roles
          (filter (λ g. one_of (id ∷ ids) g.party_id) t.global_roles))))

-- `rankRole`, one more than in the source, where an unknown role has rank -1.
abbrev pub rank_role : String → ℕ
rank_role role =
    if role == "project:owner"
    then 3
    else if role == "project:developer"
    then 2
    else if role == "project:viewer"
    then 1
    else 0

abbrev pub Best : Type 0
Best = List (String × String)

abbrev pub role_of : String → Best → Option String
role_of project [] = none
role_of project ((p, role) ∷ best) = if p == project then some role else role_of project best

abbrev pub put_role : String → String → Best → Best
put_role project role [] = (project, role) ∷ []
put_role project role ((p, old) ∷ best) =
    if p == project then (p, role) ∷ best else (p, old) ∷ put_role project role best

abbrev pub wins : String → Option String → Bool
wins role none = true
wins role (some existing) = ltb (rank_role existing) (rank_role role)

-- The loop that keeps the role of the highest rank; a row is (to_party_id, from_role).
unfoldable pub best_roles : List (String × String) → Best → Best
best_roles [] best = best
best_roles ((project, role) ∷ rows) best =
    best_roles rows (if wins role (role_of project best) then put_role project role best else best)

-- ORDER BY name ASC
abbrev pub name_le : Party → Party → Bool
name_le p q = elim (compare p.name q.name) [ Ordering.gt ↦ false | _ ↦ true ]

abbrev pub insert_by_name : Party → List Party → List Party
insert_by_name p [] = p ∷ []
insert_by_name p (q ∷ qs) = if name_le p q then p ∷ q ∷ qs else q ∷ insert_by_name p qs

abbrev pub order_by_name : List Party → List Party
order_by_name [] = []
order_by_name (p ∷ ps) = insert_by_name p (order_by_name ps)

-- The rows of the join over the parties from which the user reaches a project.
abbrev pub project_rows : List String → Tables → List (String × String)
project_rows reachable t =
    map (λ row. (row.0.to_party_id, row.0.from_role))
      (join_on (λ r p. p.id == r.to_party_id)
        (filter (λ r. one_of reachable r.from_party_id && r.relationship_name == project_member)
          t.relationships)
        (filter (λ p. p.kind == project_kind) t.parties))

abbrev pub role_or_empty : Option String → String
role_or_empty none = ""
role_or_empty (some role) = role

abbrev pub membership_of : Best → Party → UserProjectMembership
membership_of best p = record { project = p; role = role_or_empty (role_of p.id best) }

abbrev pub fetch_projects : Best → M Tables (List UserProjectMembership)
fetch_projects [] = return []
fetch_projects (b ∷ bs) = do
  projects ←
      context "fetching projects"
        (query (λ t. order_by_name (filter (λ p. one_of (map (λ e. e.0) (b ∷ bs)) p.id) t.parties)))
  return (map (membership_of (b ∷ bs)) projects)

abbrev pub resolve_person : Option Party → M Tables (List UserProjectMembership)
resolve_person none = return []
resolve_person (some person) = do
  ancestors ← context "reading closure ancestors" (
      query (λ t.
        map (λ c. c.ancestor_party_id) (filter (λ c. c.member_party_id == person.id) t.closures)))
  rows ← context "reading project memberships" (query (λ t. project_rows (person.id ∷ ancestors) t))
  fetch_projects (best_roles rows [])

unfoldable pub resolve_user_projects : String → M Tables (List UserProjectMembership)
resolve_user_projects user_id =
    context_for (codes "looking up person for user " ++ codes user_id)
      (get_party_by_user_id user_id)
    >>= resolve_person
