-- ===== src/Health/Handlers.antt =====
-- PatchLifecycle and ProbeEntry of internal/api/health_handlers.go. A request body that is no JSON
-- is `none`. A response is a status, or the entry or health that the handler sends.
use agentlens.Common.{ℕ, String, Bool, true, false, Option, none, some, ◌==◌, ◌||◌, if◌then◌else◌}
use agentlens.Sql.{is_entry_not_found, World, Outcome, done, raised}
use agentlens.Health.{active, deprecated, Health, CatalogEntry}
use agentlens.Health.Store.{Entries, get, set_lifecycle}
use agentlens.Health.Limiter.{ProbeRateLimiter, allow}

pub data Response : Type 0 where
  error : (status : ℕ) → Response
  entry : CatalogEntry → Response
  health_dto : Health → Response

abbrev pub is_manual_state : String → Bool
is_manual_state state = state == deprecated || state == active

abbrev pub respond_updated : Outcome Entries (Option CatalogEntry) → Response × World Entries
respond_updated (done (some updated) w) = (entry updated, w)
respond_updated (done none w) = (error 500, w)
respond_updated (raised e w) = (error 500, w)

abbrev pub respond_set : String → Outcome Entries (Unit {0}) → Response × World Entries
respond_set id (done u w) = respond_updated (get id w)
respond_set id (raised e w) = (error 500, w)

abbrev pub respond_found :
    String → String → Outcome Entries (Option CatalogEntry) → Response × World Entries
respond_found id state (raised e w) = (error 500, w)
respond_found id state (done none w) = (error 404, w)
respond_found id state (done (some found) w) = respond_set id (set_lifecycle id state w)

unfoldable pub patch_lifecycle : String → Option String → World Entries → Response × World Entries
patch_lifecycle id none w = (error 400, w)
patch_lifecycle id (some state) w =
    if is_manual_state state then respond_found id state (get id w) else (error 400, w)

abbrev pub probe_window : ℕ
probe_window = 5000000000

abbrev pub respond_probed : Outcome Entries Health → Response × World Entries
respond_probed (done h w) = (health_dto h, w)
respond_probed (raised e w) = (if is_entry_not_found e then error 404 else error 500, w)

-- `prober` is `none` where the health check is disabled.
abbrev pub respond_prober :
    Option (String → World Entries → Outcome Entries Health)
    → String
    → World Entries
    → Response × World Entries
respond_prober none id w = (error 503, w)
respond_prober (some probe) id w = respond_probed (probe id w)

abbrev pub respond_allowed :
    Option (String → World Entries → Outcome Entries Health)
    → String
    → Bool × ProbeRateLimiter
    → World Entries
    → Response × (ProbeRateLimiter × World Entries)
respond_allowed prober id (false, r) w = (error 429, (r, w))
respond_allowed prober id (true, r) w =
    let (response, w') = respond_prober prober id w in (response, (r, w'))

unfoldable pub probe_entry_handler :
    Option (String → World Entries → Outcome Entries Health)
    → String
    → ℕ
    → ProbeRateLimiter
    → World Entries
    → Response × (ProbeRateLimiter × World Entries)
probe_entry_handler prober id now r w = respond_allowed prober id (allow probe_window id now r) w
