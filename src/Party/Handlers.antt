-- ===== src/Party/Handlers.antt =====
-- internal/api/party_handlers.go and party_kind_configs.go, with MyProjectsHandler of
-- auth_handlers.go. A body that is no JSON is `none`; `trim` is strings.TrimSpace. A response is an
-- error with its status and text, or what the handler sends.

mod Answers
mod Conflicts
mod Tests
use agentlens.Common.{
  ℕ, String, Bool, true, false, not, ◌&&◌, ◌||◌, Option, none, some, List, [], ◌∷◌, any, find?,
  Text, codes, contains, ◌++◌, ◌==◌, if◌then◌else◌,
}
use agentlens.Http.{Reply, error_response, sent, fail, answer}
use agentlens.Sql.{Error, message, is_member_not_found, World, Outcome, done, raised, M}
use agentlens.Tables.{
  Party, PartyRelationship, UserProjectMembership, Tables, person_kind, group_kind, project_kind,
  group_member, project_member, one_of,
}
use agentlens.Party.Recursion.{RecursiveQuery}
use agentlens.Party.Store.{create_party, get_party, list_parties, delete_party}
use agentlens.Party.Members.{
  add_member, remove_member, list_members, UpdateMemberRoleParams, update_member_role,
}
use agentlens.Party.Projects.{resolve_user_projects}

pub record PartyKindConfig : Type 0 where
  pub kind : String
  pub url_prefix : String
  pub member_relationship : String
  pub valid_member_roles : List String
  pub create_permission : String
  pub manage_permission : String
  pub can_contain_kinds : List String

abbrev pub group_kind_config : PartyKindConfig
group_kind_config = record {
  kind = group_kind;
  url_prefix = "groups";
  member_relationship = group_member;
  valid_member_roles = "member" ∷ [];
  create_permission = "users:write";
  manage_permission = "users:write";
  can_contain_kinds = person_kind ∷ group_kind ∷ [];
}

abbrev pub project_kind_config : PartyKindConfig
project_kind_config = record {
  kind = project_kind;
  url_prefix = "projects";
  member_relationship = project_member;
  valid_member_roles = "project:owner" ∷ "project:developer" ∷ "project:viewer" ∷ [];
  create_permission = "catalog:write";
  manage_permission = "catalog:write";
  can_contain_kinds = person_kind ∷ group_kind ∷ [];
}

abbrev pub Response : Type 0 → Type 0
Response A = Reply A × World Tables

abbrev pub listed : PartyKindConfig → Outcome Tables (List Party) → Response (List Party)
listed cfg (done parties w) = (sent 200 parties, w)
listed cfg (raised e w) = (error_response 500 (codes "failed to list " ++ codes cfg.url_prefix), w)

unfoldable pub list_parties_handler : PartyKindConfig → World Tables → Response (List Party)
list_parties_handler cfg w = listed cfg (list_parties cfg.kind w)

unfoldable pub list_all_parties_handler : String → World Tables → Response (List Party)
list_all_parties_handler kind w = answer 500 "failed to list parties" 200 (list_parties kind w)

module _ (trim : String → String) where
  unfoldable pub create_party_handler :
      PartyKindConfig → String → Option String → World Tables → Response Party
  create_party_handler cfg fresh none w = fail 400 "invalid request body" w
  create_party_handler cfg fresh (some raw) w =
      let name = trim raw in
      if name == ""
      then fail 400 "name is required" w
      else answer 500 "failed to create" 201 (
          create_party fresh
            (record {
              id = fresh;
              kind = cfg.kind;
              name = name;
              version = 0;
              user_id = none;
              is_system = false;
            })
            w)

abbrev pub found_of_kind : PartyKindConfig → Outcome Tables (Option Party) → Response Party
found_of_kind cfg (raised e w) = fail 500 "failed to get" w
found_of_kind cfg (done none w) = fail 404 "not found" w
found_of_kind cfg (done (some p) w) =
    if not (p.kind == cfg.kind) then fail 404 "not found" w else (sent 200 p, w)

unfoldable pub get_party_handler : PartyKindConfig → String → World Tables → Response Party
get_party_handler cfg id w = found_of_kind cfg (get_party id w)

unfoldable pub my_projects_handler : String → World Tables → Response (List UserProjectMembership)
my_projects_handler user_id w =
    if user_id == ""
    then fail 401 "unauthenticated" w
    else answer 500 "failed to load projects" 200 (resolve_user_projects user_id w)

abbrev pub deleted : Outcome Tables (Unit {0}) → Response (Unit {0})
deleted (done u w) = (sent 204 tt, w)
deleted (raised e w) = (error_response 400 (message e), w)

module _ (engine : RecursiveQuery) where
  unfoldable pub delete_party_handler : String → World Tables → Response (Unit {0})
  delete_party_handler id w = deleted (delete_party engine id w)

  -- How AddMember's errors are told apart: by their text.
  abbrev pub is_conflict : Text → Bool
  is_conflict msg = contains msg (codes "cycle") || contains msg (codes "cannot add party")

  abbrev pub member_added : Outcome Tables PartyRelationship → Response PartyRelationship
  member_added (done rel w) = (sent 201 rel, w)
  member_added (raised e w) =
      if is_conflict (message e)
      then (error_response 409 (message e), w)
      else fail 500 "failed to add member" w

  abbrev pub new_member : PartyKindConfig → String → String → String → PartyRelationship
  new_member cfg to party_id role = record {
    id = "";
    from_party_id = party_id;
    from_role = role;
    to_party_id = to;
    to_role = cfg.kind;
    relationship_name = cfg.member_relationship;
  }

  abbrev pub add_found :
      PartyKindConfig
      → (fresh to party_id role : String) → Outcome Tables (Option Party)
      → Response PartyRelationship
  add_found cfg fresh to party_id role (raised e w) = fail 500 "failed to load member party" w
  add_found cfg fresh to party_id role (done none w) = fail 400 "member party not found" w
  add_found cfg fresh to party_id role (done (some member) w) =
      if not (one_of cfg.can_contain_kinds member.kind)
      then fail 400 "member party kind not allowed for this container" w
      else member_added (add_member engine fresh (new_member cfg to party_id role) w)

  abbrev pub add_to :
      PartyKindConfig
      → (fresh to party_id role : String) → Outcome Tables (Option Party)
      → Response PartyRelationship
  add_to cfg fresh to party_id role (raised e w) = fail 500 "failed to load target party" w
  add_to cfg fresh to party_id role (done none w) = fail 404 "target party not found" w
  add_to cfg fresh to party_id role (done (some target) w) =
      if not (target.kind == cfg.kind)
      then fail 404 "target party not found" w
      else add_found cfg fresh to party_id role (get_party party_id w)

  unfoldable pub add_member_handler :
      PartyKindConfig
      → (fresh to : String) → Option (String × String)
      → World Tables
      → Response PartyRelationship
  add_member_handler cfg fresh to none w = fail 400 "invalid request body" w
  add_member_handler cfg fresh to (some (party_id, role)) w =
      if party_id == "" || role == ""
      then fail 400 "party_id and role are required" w
      else if not (one_of cfg.valid_member_roles role)
      then fail 400 "invalid role for this party kind" w
      else add_to cfg fresh to party_id role (get_party to w)

  unfoldable pub remove_member_handler :
      PartyKindConfig → (to member : String) → World Tables → Response (Unit {0})
  remove_member_handler cfg to member w =
      answer 500 "failed to remove member" 204
        (remove_member engine member to cfg.member_relationship w)

unfoldable pub list_members_handler :
    PartyKindConfig → String → World Tables → Response (List PartyRelationship)
list_members_handler cfg to w =
    answer 500 "failed to list members" 200 (list_members to cfg.member_relationship w)

abbrev pub role_updated : Outcome Tables (Unit {0}) → Response (Unit {0})
role_updated (done u w) = (sent 204 tt, w)
role_updated (raised e w) =
    if is_member_not_found e
    then fail 404 "member not found" w
    else fail 500 "failed to update role" w

-- The role of the first listed row of the member, or the empty text.
abbrev pub old_role : String → List PartyRelationship → String
old_role member rows = elim (find? (λ m. m.from_party_id == member) rows) [
  | none ↦ ""
  | some m ↦ m.from_role
]

abbrev pub update_listed :
    PartyKindConfig
    → (to member role : String) → Outcome Tables (List PartyRelationship)
    → Response (Unit {0})
update_listed cfg to member role (raised e w) = fail 500 "failed to load member" w
update_listed cfg to member role (done rows w) =
    if old_role member rows == ""
    then fail 404 "member not found" w
    else role_updated (
        update_member_role
          (record {
            from_party_id = member;
            to_party_id = to;
            relationship_name = cfg.member_relationship;
            old_role = old_role member rows;
            new_role = role;
          })
          w)

unfoldable pub update_member_role_handler :
    PartyKindConfig → (to member : String) → Option String → World Tables → Response (Unit {0})
update_member_role_handler cfg to member none w = fail 400 "invalid request body" w
update_member_role_handler cfg to member (some role) w =
    if role == "" || not (one_of cfg.valid_member_roles role)
    then fail 400 "invalid role for this party kind" w
    else update_listed cfg to member role (list_members to cfg.member_relationship w)
