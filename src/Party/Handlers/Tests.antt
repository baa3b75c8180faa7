-- ===== src/Party/Handlers/Tests.antt =====
-- Runs of the member handlers.
use agentlens.Common.{
  String, ◌≡◌, ◌≢◌, refl, false, Option, none, some, [], ◌∷◌, ◌++◌, codes, ◌==◌, eq_iff, arith,
}
use agentlens.Sql.{calm, ◌>>=◌, context, attempt, transaction}
use agentlens.Tables.{Party, PartyRelationship, Tables, person_kind, group_kind, group_member}
use agentlens.Party.Incremental.{incremental, incremental_run}
use agentlens.Party.Store.{get_party, rebuild_all_closures, rebuild_named}
use agentlens.Party.Members.{
  check_containment, add_member_tx, add_member, list_members, update_member_role,
}
use agentlens.Http.{error_response, sent}
use agentlens.Party.Handlers.{group_kind_config, add_member_handler, update_member_role_handler}
use agentlens.Party.Handlers.Answers.{IsAccepted, add_member_handler_accepts}
use agentlens.Party.Handlers.Conflicts.{add_member_handler_hides_failure}

abbrev ann : Party
ann = record {
  id = "p1";
  kind = person_kind;
  name = "Ann";
  version = 1;
  user_id = none;
  is_system = false;
}

abbrev team : Party
team = record {
  id = "g1";
  kind = group_kind;
  name = "Team";
  version = 1;
  user_id = none;
  is_system = false;
}

abbrev staff : Tables
staff = record {
  users = [];
  roles = [];
  parties = ann ∷ team ∷ [];
  relationships = [];
  closures = [];
  global_roles = [];
  memberships = [];
}

abbrev row : PartyRelationship
row = record {
  id = "r1";
  from_party_id = "p1";
  from_role = "member";
  to_party_id = "g1";
  to_role = group_kind;
  relationship_name = group_member;
}

abbrev joined : Tables
joined = record staff {
  relationships = row ∷ [];
  closures = record { member_party_id = "p1"; ancestor_party_id = "g1" } ∷ [];
}

runs : Unit {0}
unfolding add_member_handler update_member_role_handler add_member add_member_tx check_containment
    list_members update_member_role rebuild_all_closures rebuild_named incremental_run get_party
    ◌>>=◌ context attempt transaction
runs = tt

added :
    add_member_handler incremental group_kind_config "r1" "g1" (some ("p1", "member")) (calm staff)
    ≡ (sent 201 row, calm joined)
unfolding runs
added = refl

refusals :
    ((add_member_handler incremental group_kind_config "r1" "p1"
        (some ("g1", "member"))
        (calm staff)).0
      ≡ error_response 404 (codes "target party not found"))
    × ((add_member_handler incremental group_kind_config "r1" "g1"
          (some ("p9", "member"))
          (calm staff)).0
        ≡ error_response 400 (codes "member party not found"))
    × ((add_member_handler incremental group_kind_config "r1" "g1"
          (some ("p1", "owner"))
          (calm staff)).0
        ≡ error_response 400 (codes "invalid role for this party kind"))
    × ((update_member_role_handler group_kind_config "g1" "p9" (some "member") (calm joined)).0
        ≡ error_response 404 (codes "member not found"))
unfolding runs
refusals = (refl, refl, refl, refl)

add_member_handler_accepts_example :
    (party_id : String) × (role : String) × (◌≡◌ {A = Option (String × String)}
      (some ("p1", "member"))
      (some (party_id, role)))
    × IsAccepted incremental group_kind_config "r1" "g1" party_id role
        (calm staff)
        (calm joined)
        row
add_member_handler_accepts_example =
    add_member_handler_accepts incremental group_kind_config "r1" "g1" (some ("p1", "member"))
      (calm staff) (calm joined) row added

different : (a b : String) → a == b ≡ false → a ≢ b
different a b h e = ground (arith, eq_iff a b)

add_member_handler_hides_failure_example :
    add_member_handler incremental group_kind_config "r1" "g1"
      (some ("p1", "member"))
      (record { tables = staff; faults = none ∷ none ∷ some (codes "disk full") ∷ [] })
    ≡ (
      error_response 409 (codes "cycle detection: " ++ codes "disk full"),
      record { tables = staff; faults = [] },
    )
add_member_handler_hides_failure_example =
    add_member_handler_hides_failure incremental "r1" "g1" "p1" staff (codes "disk full") team ann
      (different "p1" "" refl) (different "p1" "g1" refl) refl refl refl refl
