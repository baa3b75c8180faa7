-- ===== src/Party/Tests.antt =====
-- Runs of the party store and of the permission middleware on a small organisation.
use agentlens.Common.{
  String, true, ◌≡◌, ◌≢◌, ◌↔◌, refl, ap, ◌∙◌, ◌⊎◌, inl, inr, false, none, some, List, [], ◌∷◌,
  Member, find?, codes, ◌==◌, eq_iff, arith,
}
use agentlens.Sql.{
  World, done, raised, calm, world, ◌>>=◌, context, context_for, attempt, transaction,
}
use agentlens.Tables.{
  Party, PartyRelationship, Tables, person_kind, group_kind, project_kind, group_member,
  project_member,
}
use agentlens.Party.Graph.{Chain, start, join, IsAcyclic-cons}
use agentlens.Party.Incremental.{incremental, incremental_run}
use agentlens.Party.Store.{
  is_value, delete_party, delete_party_tx, rebuild_all_closures, rebuild_named,
}
use agentlens.Party.Members.{with_id, add_member, add_member_tx, check_containment, remove_member}
use agentlens.Party.Closure.{containment_edges, rebuilt}
use agentlens.Party.Invariant.{IsWellFormed, rebuilt-IsWellFormed}
use agentlens.Party.History.{Call, add, remove, delete, calls, calls-IsWellFormed}
use agentlens.Party.Guards.{IsStorable, not_stored}
use agentlens.Party.Guarantees.{add_member_accepts_iff, add_member_refuses}
use agentlens.Tables.{UserProjectMembership}
use agentlens.Party.Store.{get_party_by_user_id}
use agentlens.Party.Projects.{get_default_project, resolve_user_projects, best_roles}
use agentlens.Party.Roles.{HasRole, IsBest, resolve_user_projects-IsBest}
use agentlens.Party.Deletion.{IsForgotten, delete_party-IsForgotten}
use agentlens.Party.Permission.{next, require_project_permission}
use agentlens.Party.Permission.Decides.{ByGroup, ByProject, require_project_permission_iff}

abbrev alice : Party
alice = record {
  id = "p1";
  kind = person_kind;
  name = "Alice";
  version = 1;
  user_id = some "u1";
  is_system = false;
}

abbrev group_named : String → Party
group_named id = record {
  id = id;
  kind = group_kind;
  name = id;
  version = 1;
  user_id = none;
  is_system = false;
}

abbrev apollo : Party
apollo = record {
  id = "j1";
  kind = project_kind;
  name = "Apollo";
  version = 1;
  user_id = none;
  is_system = false;
}

abbrev membership : String → String → PartyRelationship
membership from to = record {
  id = "";
  from_party_id = from;
  from_role = "member";
  to_party_id = to;
  to_role = group_kind;
  relationship_name = group_member;
}

abbrev develops : String → String → PartyRelationship
develops from to = record {
  id = "r9";
  from_party_id = from;
  from_role = "project:developer";
  to_party_id = to;
  to_role = project_kind;
  relationship_name = project_member;
}

-- Alice is in the group g1, and the group develops the project j1. The closure table is empty.
abbrev raw : Tables
raw = record {
  users = [];
  roles = [];
  parties = alice ∷ group_named "g1" ∷ group_named "g2" ∷ apollo ∷ [];
  relationships = membership "p1" "g1" ∷ develops "g1" "j1" ∷ [];
  closures = [];
  global_roles = [];
  memberships = [];
}

abbrev organisation : Tables
organisation = rebuilt incremental raw

no_walk : (a b : String) → ¬ Chain [] a b
no_walk a b (start m) = elim m [ ]
no_walk a b (join c m) = elim m [ ]

distinct_ids : (a b : String) → a == b ≡ false → a ≢ b
distinct_ids a b h e = ground (arith, eq_iff a b)

organisation-IsWellFormed : IsWellFormed organisation
organisation-IsWellFormed =
    rebuilt-IsWellFormed incremental raw (IsAcyclic-cons "p1" "g1" [] (λ a c. no_walk a a c) stays)
  where
    stays : ¬ ((◌≡◌ {A = String} "g1" "p1") ⊎ Chain [] "g1" "p1")
    stays (inl e) = distinct_ids "g1" "p1" refl e
    stays (inr c) = no_walk "g1" "p1" c

runs : Unit {0}
unfolding context_for add_member add_member_tx check_containment remove_member delete_party
    delete_party_tx rebuild_all_closures rebuild_named incremental_run ◌>>=◌ context attempt
    transaction
runs = tt

-- A new group edge succeeds; an edge that would close a cycle fails, a failing statement too.
store_tests :
    ((world
        (add_member incremental "r2" (membership "g1" "g2") (calm organisation))).tables.closures
      ≡ record { member_party_id = "p1"; ancestor_party_id = "g1" }
        ∷ record { member_party_id = "p1"; ancestor_party_id = "g2" }
        ∷ record { member_party_id = "g1"; ancestor_party_id = "g2" }
        ∷ [])
    × ((world (add_member incremental "r2" (membership "g1" "p1") (calm organisation))).tables
        ≡ organisation)
    × ((world (delete_party incremental "g1" (calm organisation))).tables.closures ≡ [])
unfolding runs
store_tests = (refl, refl, refl)

abbrev history : List Call
history =
    add "r2" (membership "g1" "g2")
    ∷ remove "p1" "g1" group_member
    ∷ add "r3" (membership "g2" "g1")
    ∷ delete "g1"
    ∷ []

-- The second statement of the history fails.
abbrev faulty : World Tables
faulty = record { tables = organisation; faults = none ∷ some (codes "disk full") ∷ [] }

calls-IsWellFormed_example : IsWellFormed (calls incremental history faulty).tables
calls-IsWellFormed_example = calls-IsWellFormed incremental history faulty organisation-IsWellFormed

add_member_accepts_iff_example :
    ((stored : PartyRelationship) × (w : World Tables) × (add_member incremental "r2"
          (membership "g1" "g2")
          (calm organisation)
        ≡ done stored w))
    ↔ ((membership "g1" "g2").from_party_id ≢ (membership "g1" "g2").to_party_id)
      × (¬ Chain (containment_edges organisation.relationships) "g2" "g1")
      × IsStorable (with_id "r2" (membership "g1" "g2")) organisation
add_member_accepts_iff_example =
    add_member_accepts_iff incremental "r2" (membership "g1" "g2") organisation
      organisation-IsWellFormed refl

abbrev after_deletion : World Tables
after_deletion = world (delete_party incremental "g1" (calm organisation))

deletion_runs : delete_party incremental "g1" (calm organisation) ≡ done tt after_deletion
unfolding runs
deletion_runs = refl

delete_party-IsForgotten_example :
    IsForgotten "g1" after_deletion.tables
    × ((party : Party) × Member party organisation.parties
        × (party.id ≡ "g1")
        × (party.is_system ≡ false))
delete_party-IsForgotten_example =
    delete_party-IsForgotten incremental "g1" (calm organisation) after_deletion tt deletion_runs

-- Alice is in the group already, under another identifier.
not_storable : ¬ IsStorable (with_id "r2" (membership "p1" "g1")) organisation
not_storable (inl (r, inl e, same_id, same)) =
    distinct_ids "" "r2" refl (ap (λ x. x.id) e ∙ same_id)
not_storable (inl (r, inr (inl e), same_id, same)) =
    distinct_ids "r9" "r2" refl (ap (λ x. x.id) e ∙ same_id)
not_storable (inl (r, inr (inr m), same_id, same)) = elim m [ ]
not_storable (inr free) =
    let (other_id, other) = free (membership "p1" "g1") (inl refl) in
    let clash : true ≡ false = other in cc

add_member_refuses_example :
    add_member incremental "r2" (membership "p1" "g1") (calm organisation)
    ≡ raised not_stored (calm organisation)
add_member_refuses_example =
    add_member_refuses incremental "r2" (membership "p1" "g1") organisation not_stored
      organisation-IsWellFormed refl
      (inr (
        inr (
          distinct_ids "p1" "g1" refl,
          λ back. organisation-IsWellFormed.acyclic "g1" (join back (inl refl)),
          not_storable,
          refl,
        )))

require_project_permission_iff_example :
    (require_project_permission none "j1" "catalog:write" [] "u1" (calm organisation) ≡ next) ↔ (
      Member {A = String} "catalog:write" []
      ⊎ ((user : Party) × (find? (λ p. is_value p.user_id "u1") organisation.parties ≡ some user)
          × (ByGroup "catalog:write" organisation user
              ⊎ ByProject "j1" "catalog:write" organisation user)))
require_project_permission_iff_example =
    require_project_permission_iff [] "u1" "j1" "catalog:write" organisation
      organisation-IsWellFormed

resolve_user_projects-IsBest_example :
    (ms : List UserProjectMembership) × (resolve_user_projects "u1" (calm organisation)
      ≡ done ms (calm organisation))
    × ((m : UserProjectMembership)
        → Member m ms
        → Member m.project organisation.parties × IsBest organisation alice m.project.id m.role)
    × ((project role : String)
        → HasRole organisation alice project role
        → (m : UserProjectMembership) × Member m ms × (m.project.id ≡ project))
resolve_user_projects-IsBest_example =
    resolve_user_projects-IsBest "u1" organisation alice organisation-IsWellFormed refl

-- The group's role in the project is what the user is told.
projects_test :
    resolve_user_projects "u1" (calm organisation)
    ≡ done (record { project = apollo; role = "project:developer" } ∷ []) (calm organisation)
unfolding runs resolve_user_projects get_party_by_user_id best_roles
projects_test = refl

abbrev seeded : String → Party
seeded id = record apollo { id = id; is_system = true }

default_test :
    get_default_project
      (calm (record organisation { parties = apollo ∷ seeded "j9" ∷ seeded "j3" ∷ [] }))
    ≡ done
        (seeded "j3")
        (calm (record organisation { parties = apollo ∷ seeded "j9" ∷ seeded "j3" ∷ [] }))
unfolding runs get_default_project
default_test = refl
