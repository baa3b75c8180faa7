-- ===== src/Catalog/Tests.antt =====
-- Two registrations of one agent, and of its provider.
use agentlens.Common.{codes, String, ◌≡◌, refl, true, false, Option, none, some, List, [], ◌∷◌, any}
use agentlens.Sql.{World, calm, done, world, ◌>>=◌, context, attempt, transaction}
use agentlens.Tables.{Party, project_kind}
use agentlens.Party.Projects.{get_default_project}
use agentlens.Catalog.{
  AgentType, CapabilityRow, CatalogEntry, Catalog, has_entry_id, on_parties, create, delete,
  find_by_endpoint,
}
use agentlens.Catalog.Providers.{
  Provider, Providers, upsert_provider, IsUpsert, upsert_provider-IsUpsert,
}
use agentlens.Catalog.Assigned.{
  IsAssigned, Write, created, deleted, write_all, write_all-IsAssigned,
}
use agentlens.Catalog.Leftover.{create-delete_refused}

abbrev default_project : Party
default_project = record {
  id = "default";
  kind = project_kind;
  name = "Default";
  version = 1;
  user_id = none;
  is_system = true;
}

abbrev empty_catalog : Catalog
empty_catalog = record {
  agent_types = [];
  capabilities = [];
  entries = [];
  parties = record {
    users = [];
    roles = [];
    parties = default_project ∷ [];
    relationships = [];
    closures = [];
    global_roles = [];
    memberships = [];
  };
}

-- A capability is its name.
abbrev skill_row : String → String → Option CapabilityRow
skill_row id name = some (record {
  agent_type_id = id;
  kind = "a2a.skill";
  name = name;
  description = "";
  properties = "{}";
})

abbrev agent : String → AgentType
agent id = record {
  id = id;
  agent_key = "k";
  protocol = "a2a";
  endpoint = "http://agent";
  version = "1";
  spec_version = "0.3";
  provider_id = none;
}

abbrev entry : String → CatalogEntry
entry id = record {
  id = id;
  agent_type_id = "";
  display_name = "agent";
  status = "registered";
  source = "push";
}

abbrev skills : List String
skills = "translate" ∷ "sum" ∷ []

abbrev first_created : World Catalog
first_created =
    world (create skill_row true (entry "e1") (some (agent "a1", skills)) (calm empty_catalog))

created_run :
    create skill_row true (entry "e1") (some (agent "a1", skills)) (calm empty_catalog)
    ≡ done tt first_created
unfolding create on_parties get_default_project ◌>>=◌ context attempt transaction
created_run = refl

abbrev emptied : World Catalog
emptied = world (delete "e1" first_created)

deleted_run : delete "e1" first_created ≡ done tt emptied
unfolding create on_parties get_default_project delete ◌>>=◌ context attempt transaction
deleted_run = refl

found_run :
    find_by_endpoint "http://agent" first_created
    ≡ done (some (record (entry "e1") { agent_type_id = "a1" }, agent "a1")) first_created
unfolding create on_parties get_default_project find_by_endpoint ◌>>=◌ context attempt transaction
found_run = refl

create-delete_refused_example :
    (any (has_entry_id "e1") emptied.tables.entries ≡ false)
    × ¬ (create skill_row true (entry "e2") (some (agent "a2", skills)) emptied ≡ done tt emptied)
create-delete_refused_example =
    create-delete_refused skill_row true (entry "e1") (entry "e2") (agent "a1") (agent "a2") skills
      skills (calm empty_catalog) first_created emptied emptied created_run deleted_run refl refl

empty-IsAssigned : IsAssigned default_project empty_catalog
empty-IsAssigned = record { named = refl; default = refl; member = λ e m. elim m [ ] }

abbrev writes : List (Write String)
writes =
    created (entry "e1") (some (agent "a1", skills))
    ∷ deleted "e1"
    ∷ created (entry "e2") (some (agent "a1", []))
    ∷ []

write_all-IsAssigned_example :
    IsAssigned default_project (write_all skill_row writes (calm empty_catalog)).tables
write_all-IsAssigned_example =
    write_all-IsAssigned skill_row default_project writes (calm empty_catalog) empty-IsAssigned

abbrev acme : Provider
acme = record { id = ""; organization = "acme"; team = "core"; url = "" }

-- The search fails, and the unique index refuses a second row.
abbrev searching : World Providers
searching = record { tables = record acme { id = "p1" } ∷ []; faults = some (codes "timeout") ∷ [] }

providers_run :
    (world (upsert_provider "p2" acme searching)).tables ≡ record acme { id = "p1" } ∷ []
unfolding upsert_provider ◌>>=◌ context attempt
providers_run = refl

upsert_provider-IsUpsert_example : IsUpsert acme searching (upsert_provider "p2" acme searching)
upsert_provider-IsUpsert_example = upsert_provider-IsUpsert "p2" acme searching refl
