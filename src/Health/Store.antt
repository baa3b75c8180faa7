-- ===== src/Health/Store.antt =====
-- internal/store/health_store.go, ListForProbing of internal/store/sql_store_query.go, and ProbeEntry
-- and checkAll of plugins/health, over the table catalog_entries.
use agentlens.Common.{
  ℕ, ◌-◌, ◌*◌, String, Bool, true, false, not, ◌&&◌, Option, none, some, List, [], ◌∷◌, ◌++◌,
  filter, take, find?, any, update, ltb, leb, Text, codes, ◌==◌, if◌then◌else◌,
}
use agentlens.Sql.{
  wrap, plain, entry_not_found, World, Outcome, done, raised, M, ◌>>=◌, ◌>>◌, return, raise,
  context, context_for, query, statement, world,
}
use agentlens.Health.{deprecated, Health, CatalogEntry, Plugin, Reply, probe_one}

abbrev pub Entries : Type 0
Entries = List CatalogEntry

abbrev pub last_seen_after : Option ℕ → ℕ → ℕ
last_seen_after none old = old
last_seen_after (some t) old = t

-- The columns that `UpdateHealth` writes.
abbrev pub with_health : Health → CatalogEntry → CatalogEntry
with_health h e = record e {
  status = h.state;
  health_last_probed_at = h.last_probed_at;
  health_last_success_at = h.last_success_at;
  health_last_error = h.last_error;
  health_latency_ms = h.latency_ms;
  health_consecutive_failures = h.consecutive_failures;
  last_seen = last_seen_after h.last_success_at e.last_seen;
}

abbrev pub has_id : String → CatalogEntry → Bool
has_id id e = e.id == id

-- An UPDATE of the rows of one identifier, and whether there was one.
abbrev pub update_rows : String → (CatalogEntry → CatalogEntry) → M Entries Bool
update_rows id f = statement (λ es. (any (has_id id) es, update (has_id id) f es))

unfoldable pub update_health : String → Health → M Entries (Unit {0})
update_health id h = do
  changed ← context_for (codes "updating health for " ++ codes id) (update_rows id (with_health h))
  if changed
      then return tt
      else raise (wrap (codes "updating health for " ++ codes id) entry_not_found)

unfoldable pub set_lifecycle : String → String → M Entries (Unit {0})
set_lifecycle id state = do
  changed ←
      context_for (codes "setting lifecycle for " ++ codes id)
        (update_rows id (λ e. record e { status = state }))
  if changed then return tt else raise (plain (codes "entry " ++ (codes id ++ codes " not found")))

-- The read of the capabilities of a row's agent type, which may fail and changes nothing here.
abbrev pub load_capabilities : CatalogEntry → M Entries (Unit {0})
load_capabilities e = elim e.endpoint [
  | none ↦ return tt
  | some url ↦ context "loading capabilities" (query (λ es. tt))
]

abbrev pub loaded : Option CatalogEntry → M Entries (Option CatalogEntry)
loaded none = return none
loaded (some e) = load_capabilities e >> return (some e)

-- `Get` of internal/store/sql_store.go.
unfoldable pub get : String → M Entries (Option CatalogEntry)
get id = context "getting catalog entry" (query (λ es. find? (has_id id) es)) >>= loaded

-- Never probed entries come first, then those that were probed longest ago.
abbrev pub probed_before : Option ℕ → ℕ → Bool
probed_before none older_than = true
probed_before (some t) older_than = ltb t older_than

-- The join leaves out a row without an agent type.
abbrev pub has_agent_type : CatalogEntry → Bool
has_agent_type e = elim e.endpoint [ none ↦ false | some url ↦ true ]

abbrev pub is_due : ℕ → CatalogEntry → Bool
is_due older_than e =
    has_agent_type e
    && not (e.status == deprecated)
    && probed_before e.health_last_probed_at older_than

abbrev pub probed_no_later : Option ℕ → Option ℕ → Bool
probed_no_later none t = true
probed_no_later (some s) none = false
probed_no_later (some s) (some t) = leb s t

abbrev pub insert_by_probe : CatalogEntry → Entries → Entries
insert_by_probe e [] = e ∷ []
insert_by_probe e (f ∷ es) =
    if probed_no_later e.health_last_probed_at f.health_last_probed_at
    then e ∷ f ∷ es
    else f ∷ insert_by_probe e es

abbrev pub order_by_probe : Entries → Entries
order_by_probe [] = []
order_by_probe (e ∷ es) = insert_by_probe e (order_by_probe es)

unfoldable pub list_for_probing : ℕ → ℕ → M Entries Entries
list_for_probing older_than limit =
    context "listing for probing"
      (query (λ es. take limit (order_by_probe (filter (is_due older_than) es))))

-- An error of `UpdateHealth` is logged only.
abbrev pub persist : {A : Type 0} → A → Outcome Entries (Unit {0}) → Outcome Entries A
persist a (done u w) = done a w
persist a (raised e w) = done a w

-- `clock` is the time at which the probe of an entry makes its result, `reply` what its request
-- meets.
module _ (print : ℕ → Text) (p : Plugin) (clock : CatalogEntry → ℕ)
    (reply : CatalogEntry → Reply) where
  abbrev pub probed : CatalogEntry → Health
  probed e = probe_one print p (clock e) e (reply e)

  abbrev pub probe_found : String → Option CatalogEntry → M Entries Health
  probe_found id none w = raise entry_not_found w
  probe_found id (some e) w = persist (probed e) (update_health id (probed e) w)

  unfoldable pub probe_entry : String → M Entries Health
  probe_entry id = context "getting entry for probe" (get id) >>= probe_found id

  -- The goroutines of a round, one after the other.
  abbrev pub probe_each : Entries → World Entries → World Entries
  probe_each [] w = w
  probe_each (e ∷ es) w = probe_each es (world (update_health e.id (probed e) w))

  abbrev pub check_listed : Outcome Entries Entries → World Entries
  check_listed (done es w) = probe_each es w
  check_listed (raised e w) = w

  unfoldable pub check_all : (started interval concurrency : ℕ) → World Entries → World Entries
  check_all started interval concurrency w =
      check_listed (list_for_probing (started - interval) (concurrency * 4) w)
