-- ===== src/Catalog.antt =====
-- The writes of internal/store/sql_store.go and FindByEndpoint, over the tables agent_types,
-- capabilities, catalog_entries and those of parties. How a capability becomes a row is the argument
-- `to_row`, without the identifier that it draws. Columns that no statement here tests (description,
-- categories, metadata, validity, health, times) are left out, and so is the load of capabilities.
pub mod Providers
pub mod ProjectRoutes
mod Assigned
mod Leftover
mod Tests
use agentlens.Common.{
  String, Bool, true, false, not, ◌&&◌, ◌||◌, Option, none, some, List, [], ◌∷◌, ◌++◌, any, filter,
  find?, update, join_on, codes, ◌==◌, if◌then◌else◌,
}
use agentlens.Sql.{
  plain, World, Outcome, done, raised, M, ◌>>=◌, ◌>>◌, return, raise, context, attempt, query,
  execute, transaction,
}
use agentlens.Tables.{Party, CatalogProjectMembership, Tables}
use agentlens.Party.Projects.{get_default_project, is_membership}

pub record AgentType : Type 0 where
  pub id : String
  pub agent_key : String
  pub protocol : String
  pub endpoint : String
  pub version : String
  pub spec_version : String
  pub provider_id : Option String

pub record CapabilityRow : Type 0 where
  pub agent_type_id : String
  pub kind : String
  pub name : String
  pub description : String
  pub properties : String

pub record CatalogEntry : Type 0 where
  pub id : String
  pub agent_type_id : String
  pub display_name : String
  pub status : String
  pub source : String

pub record Catalog : Type 0 where
  pub agent_types : List AgentType
  pub capabilities : List CapabilityRow
  pub entries : List CatalogEntry
  pub parties : Tables

-- A method of the party store in the same database.
abbrev pub put_back : {A : Type 0} → Catalog → Outcome Tables A → Outcome Catalog A
put_back c (done a w) =
    done a (record { tables = record c { parties = w.tables }; faults = w.faults })
put_back c (raised e w) =
    raised e (record { tables = record c { parties = w.tables }; faults = w.faults })

unfoldable pub on_parties : {A : Type 0} → M Tables A → M Catalog A
on_parties m w = put_back w.tables (m (record { tables = w.tables.parties; faults = w.faults }))

-- The primary key, and the unique index of key and version.
abbrev pub same_agent : AgentType → AgentType → Bool
same_agent a b = b.id == a.id || (b.agent_key == a.agent_key && b.version == a.version)

abbrev pub insert_agent_type : AgentType → Catalog → Option (Unit {0} × Catalog)
insert_agent_type a c =
    if any (same_agent a) c.agent_types
    then none
    else some (tt, record c { agent_types = c.agent_types ++ a ∷ [] })

-- The unique index of agent type, kind and name.
abbrev pub same_capability : CapabilityRow → CapabilityRow → Bool
same_capability r s = s.agent_type_id == r.agent_type_id && s.kind == r.kind && s.name == r.name

abbrev pub append_rows : List CapabilityRow → List CapabilityRow → Option (List CapabilityRow)
append_rows stored [] = some stored
append_rows stored (r ∷ rs) =
    let rest = append_rows (stored ++ r ∷ []) rs in
    if any (same_capability r) stored then none else rest

abbrev pub with_capabilities : Catalog → Option (List CapabilityRow) → Option (Unit {0} × Catalog)
with_capabilities c none = none
with_capabilities c (some rows) = some (tt, record c { capabilities = rows })

abbrev pub insert_capabilities : List CapabilityRow → Catalog → Option (Unit {0} × Catalog)
insert_capabilities rows c = with_capabilities c (append_rows c.capabilities rows)

abbrev pub has_entry_id : String → CatalogEntry → Bool
has_entry_id id e = e.id == id

abbrev pub insert_entry : CatalogEntry → Catalog → Option (Unit {0} × Catalog)
insert_entry e c =
    if any (has_entry_id e.id) c.entries
    then none
    else some (tt, record c { entries = c.entries ++ e ∷ [] })

abbrev pub insert_membership : String → String → Catalog → Option (Unit {0} × Catalog)
insert_membership entry project c =
    if any (is_membership entry project) c.parties.memberships
    then none
    else some (
      tt,
      record c {
        parties = record (c.parties) {
          memberships =
              c.parties.memberships
              ++ record { catalog_entry_id = entry; project_party_id = project } ∷ [];
        };
      },
    )

module _ {C : Type 0} (to_row : String → C → Option CapabilityRow) where
  abbrev pub or_add :
      Option CapabilityRow → Option (List CapabilityRow) → Option (List CapabilityRow)
  or_add none rows = none
  or_add (some r) none = none
  or_add (some r) (some rows) = some (r ∷ rows)

  abbrev pub to_rows : String → List C → Option (List CapabilityRow)
  to_rows id [] = some []
  to_rows id (cap ∷ caps) = or_add (to_row id cap) (to_rows id caps)

  abbrev pub store_rows : String → Option (List CapabilityRow) → M Catalog (Unit {0})
  store_rows text none = raise (plain (codes "converting capability"))
  store_rows text (some []) = return tt
  store_rows text (some (r ∷ rows)) = context text (attempt (insert_capabilities (r ∷ rows)))

  abbrev pub assign_default : String → String → M Catalog (Unit {0})
  assign_default entry project =
      if project == ""
      then return tt
      else context "assigning entry to default project" (attempt (insert_membership entry project))

  abbrev pub create_tx : String → CatalogEntry → AgentType → List C → M Catalog (Unit {0})
  create_tx project e a caps =
      context "creating agent_type" (attempt (insert_agent_type a))
      >> store_rows "inserting capabilities" (to_rows a.id caps)
      >> context "inserting catalog entry"
          (attempt (insert_entry (record e { agent_type_id = a.id })))
      >> assign_default e.id project

  -- `with_parties` says whether WithPartyStore was called.
  unfoldable pub create : Bool → CatalogEntry → Option (AgentType × List C) → M Catalog (Unit {0})
  create with_parties e none = raise (plain (codes "entry.AgentType must be set before Create"))
  create with_parties e (some (a, caps)) =
      (if with_parties
        then context "resolving default project" (on_parties get_default_project)
          >>= (λ p. return p.id)
        else return "")
      >>= λ project. transaction (create_tx project e a caps)

  -- `Save`: the row of the identifier is replaced, or the row is added.
  abbrev pub save_entry : CatalogEntry → Catalog → Catalog
  save_entry e c = record c {
    entries =
        if any (has_entry_id e.id) c.entries
        then update (has_entry_id e.id) (λ _. e) c.entries
        else c.entries ++ e ∷ [];
  }

  abbrev pub other_same_key : AgentType → AgentType → Bool
  other_same_key a b = not (b.id == a.id) && b.agent_key == a.agent_key && b.version == a.version

  abbrev pub save_agent_type : AgentType → Catalog → Option (Unit {0} × Catalog)
  save_agent_type a c =
      if any (other_same_key a) c.agent_types
      then none
      else some (
        tt,
        record c {
          agent_types =
              if any (λ b. b.id == a.id) c.agent_types
              then update (λ b. b.id == a.id) (λ _. a) c.agent_types
              else c.agent_types ++ a ∷ [];
        },
      )

  abbrev pub drop_capabilities : String → Catalog → Catalog
  drop_capabilities id c = record c {
    capabilities = filter (λ r. not (r.agent_type_id == id)) c.capabilities;
  }

  abbrev pub update_agent_type : Option (AgentType × List C) → M Catalog (Unit {0})
  update_agent_type none = return tt
  update_agent_type (some (a, caps)) =
      context "updating agent_type" (attempt (save_agent_type a))
      >> context "deleting old capabilities" (execute (drop_capabilities a.id))
      >> store_rows "inserting updated capabilities" (to_rows a.id caps)

  unfoldable pub update_catalog : CatalogEntry → Option (AgentType × List C) → M Catalog (Unit {0})
  update_catalog e agent =
      transaction
        (context "updating catalog entry" (execute (save_entry e)) >> update_agent_type agent)

unfoldable pub delete : String → M Catalog (Unit {0})
delete id =
    context "deleting catalog entry"
      (execute (λ c. record c { entries = filter (λ e. not (has_entry_id id e)) c.entries }))

abbrev pub has_endpoint : String → CatalogEntry × AgentType → Bool
has_endpoint endpoint (e, a) = a.endpoint == endpoint

abbrev pub is_agent_type_of : CatalogEntry → AgentType → Bool
is_agent_type_of e a = a.id == e.agent_type_id

unfoldable pub find_by_endpoint : String → M Catalog (Option (CatalogEntry × AgentType))
find_by_endpoint endpoint =
    context "finding by endpoint" (
      query (λ c. find? (has_endpoint endpoint) (join_on is_agent_type_of c.entries c.agent_types)))
