-- ===== src/Tables.antt =====
-- The tables of users, roles and parties: the structs of internal/model/user.go, role.go, party.go
-- and party_query.go. A table is the list of its rows in the order of insertion. The timestamps
-- that only `gorm` writes (CreatedAt, UpdatedAt) are left out.
use agentlens.Common.{ℕ, String, Bool, Option, List, [], ◌∷◌, any, ◌==◌}

pub record Role : Type 0 where
  pub id : String
  pub name : String
  pub description : String
  pub permissions : List String
  pub is_system : Bool

-- Times are nanoseconds since the epoch.
pub record User : Type 0 where
  pub id : String
  pub username : String
  pub email : String
  pub display_name : String
  pub password_hash : String
  pub role_id : String
  pub is_active : Bool
  pub last_login : Option ℕ
  pub failed_attempts : ℕ
  pub locked_until : Option ℕ

abbrev pub person_kind : String
person_kind = "person"

abbrev pub group_kind : String
group_kind = "group"

abbrev pub project_kind : String
project_kind = "project"

abbrev pub valid_party_kinds : List String
valid_party_kinds = person_kind ∷ group_kind ∷ project_kind ∷ []

abbrev pub one_of : List String → String → Bool
one_of names name = any (λ n. n == name) names

abbrev pub group_member : String
group_member = "group_member"

abbrev pub project_member : String
project_member = "project_member"

abbrev pub containment_relationship_names : List String
containment_relationship_names = group_member ∷ []

-- `ContainmentRelationships[name]`
abbrev pub is_containment : String → Bool
is_containment name = one_of containment_relationship_names name

pub record Party : Type 0 where
  pub id : String
  pub kind : String
  pub name : String
  pub version : ℕ
  pub user_id : Option String
  pub is_system : Bool

pub record PartyRelationship : Type 0 where
  pub id : String
  pub from_party_id : String
  pub from_role : String
  pub to_party_id : String
  pub to_role : String
  pub relationship_name : String

pub record PartyGroupClosure : Type 0 where
  pub member_party_id : String
  pub ancestor_party_id : String

pub record GlobalPartyRole : Type 0 where
  pub party_id : String
  pub role_id : String

pub record CatalogProjectMembership : Type 0 where
  pub catalog_entry_id : String
  pub project_party_id : String

pub record UserProjectMembership : Type 0 where
  pub project : Party
  pub role : String

pub record Tables : Type 0 where
  pub users : List User
  pub roles : List Role
  pub parties : List Party
  pub relationships : List PartyRelationship
  pub closures : List PartyGroupClosure
  pub global_roles : List GlobalPartyRole
  pub memberships : List CatalogProjectMembership
