-- ===== src/Admin/Settings.antt =====
-- internal/store/settings_store.go and internal/api/settings_handlers.go, over the table settings.
-- The map of updates is the list of its pairs in the order in which the loop takes them.
use agentlens.Common.{
  String, Bool, Option, none, some, List, [], ◌∷◌, ◌++◌, any, find?, filter, update, codes, ◌==◌,
  if◌then◌else◌,
}
use agentlens.Http.{Reply, error_response, sent, fail, answer}
use agentlens.Sql.{World, Outcome, done, raised, M, ◌>>=◌, context, attempt, query}

-- UpdatedAt is left out. `category` defaults to general.
pub record Setting : Type 0 where
  pub key : String
  pub value : String
  pub category : String
  pub description : String

abbrev pub Settings : Type 0
Settings = List Setting

abbrev pub has_key : String → Setting → Bool
has_key key s = s.key == key

unfoldable pub get_setting : String → M Settings (Option Setting)
get_setting key = context "getting setting" (query (find? (has_key key)))

abbrev pub new_setting : String → String → Setting
new_setting key value = record { key = key; value = value; category = "general"; description = "" }

abbrev pub insert_setting : Setting → Settings → Option (Unit {0} × Settings)
insert_setting s ss = if any (has_key s.key) ss then none else some (tt, ss ++ s ∷ [])

-- `Save`, which inserts a row whose primary key is empty.
abbrev pub save_setting : Setting → Settings → Option (Unit {0} × Settings)
save_setting s ss =
    if s.key == ""
    then insert_setting s ss
    else some
        (tt, if any (has_key s.key) ss then update (has_key s.key) (λ _. s) ss else ss ++ s ∷ [])

abbrev pub set_found : String → String → Option Setting → M Settings (Unit {0})
set_found key value none =
    context "creating setting" (attempt (insert_setting (new_setting key value)))
set_found key value (some s) =
    context "updating setting" (attempt (save_setting (record s { value = value })))

unfoldable pub set_setting : String → String → M Settings (Unit {0})
set_setting key value =
    context "looking up setting" (query (find? (has_key key))) >>= set_found key value

unfoldable pub get_by_category : String → M Settings (List Setting)
get_by_category category =
    context "getting settings by category" (query (filter (λ s. s.category == category)))

unfoldable pub get_all : M Settings (List Setting)
get_all = context "getting all settings" (query (λ ss. ss))

abbrev pub Response : Type 0 → Type 0
Response A = Reply A × World Settings

unfoldable pub get_all_handler : World Settings → Response (List Setting)
get_all_handler w = answer 500 "failed to get settings" 200 (get_all w)

unfoldable pub get_by_category_handler : String → World Settings → Response (List Setting)
get_by_category_handler category w =
    answer 500 "failed to get settings" 200 (get_by_category category w)

abbrev pub set_next :
    (World Settings → Response (Unit {0}))
    → String
    → Outcome Settings (Unit {0})
    → Response (Unit {0})
set_next rest key (done u w) = rest w
set_next rest key (raised e w) =
    (error_response 500 (codes "failed to update setting: " ++ codes key), w)

unfoldable pub set_all : List (String × String) → World Settings → Response (Unit {0})
set_all [] w = (sent 200 tt, w)
set_all ((key, value) ∷ updates) w = set_next (λ v. set_all updates v) key (set_setting key value w)

unfoldable pub update_settings_handler :
    Option (List (String × String)) → World Settings → Response (Unit {0})
update_settings_handler none w = fail 400 "invalid request body" w
update_settings_handler (some updates) w = set_all updates w
