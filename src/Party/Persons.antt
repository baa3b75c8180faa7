-- ===== src/Party/Persons.antt =====
-- internal/store/party_store_person_sync.go.
use agentlens.Common.{
  String, codes, ◌++◌, false, Option, none, some, find?, update, ◌==◌, if◌then◌else◌,
}
use agentlens.Sql.{M, ◌>>=◌, return, context, context_for, attempt, query, execute}
use agentlens.Tables.{User, Party, Tables, person_kind}
use agentlens.Party.Store.{is_value, insert_party}

abbrev pub person_name : User → String
person_name u = if u.display_name == "" then u.username else u.display_name

abbrev pub person_of : String → User → Party
person_of fresh u = record {
  id = fresh;
  kind = person_kind;
  name = person_name u;
  version = 0;
  user_id = some u.id;
  is_system = false;
}

abbrev pub create_if_absent : String → User → Option Party → M Tables (Unit {0})
create_if_absent fresh u (some existing) = return tt
create_if_absent fresh u none =
    context_for (codes "creating person for user " ++ codes u.id)
      (attempt (insert_party (person_of fresh u)))

unfoldable pub create_person_for_user : String → User → M Tables (Unit {0})
create_person_for_user fresh u =
    context "checking existing person" (query (λ t. find? (λ p. is_value p.user_id u.id) t.parties))
    >>= create_if_absent fresh u

unfoldable pub update_person_for_user : User → M Tables (Unit {0})
update_person_for_user u = context_for (codes "updating person for user " ++ codes u.id) (
    execute (λ t. record t {
      parties =
          update (λ p. is_value p.user_id u.id) (λ p. record p { name = person_name u }) t.parties;
    }))
