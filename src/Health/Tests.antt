-- ===== src/Health/Tests.antt =====
-- Runs of the prober, the limiter and the lifecycle handler on one entry.
use agentlens.Common.{
  ℕ, ◌+◌, ◌/◌, ◌%◌, ◌-◌, ◌≤◌, String, ◌≡◌, ◌≢◌, refl, ◌⊎◌, true, false, not, some, List, [], ◌∷◌,
  ◌++◌, length, find?, ltb, Text, codes, ◌==◌, eq_iff, if◌then◌else◌, arith,
}
use agentlens.Sql.{calm, world, ◌>>=◌, context, context_for, attempt}
use agentlens.Health.{
  active, degraded, offline, deprecated, CatalogEntry, Plugin, invalid_url, no_answer, answered,
  truncate_str, probe_one,
}
use agentlens.Health.Store.{has_id, get, set_lifecycle, update_health, list_for_probing, check_all}
use agentlens.Health.Limiter.{new_limiter, allow, allow_all, allow_after_window}
use agentlens.Health.Handlers.{entry, patch_lifecycle}
use agentlens.Health.Transitions.{Probe, probes, state_after, probes_after_success}
use agentlens.Health.Limits.{IsDecimal, probe_one_error_fits}
use agentlens.Health.Interleavings.{stale_probe_undoes_deprecation}
use agentlens.Health.Answers.{IsMoved, patch_lifecycle_answers}

abbrev plugin : Plugin
plugin = record { degraded_latency = 1500000000; failure_threshold = 3 }

-- `%d` of a status code.
abbrev decimal : ℕ → Text
decimal n = (48 + n / 100 % 10) ∷ (48 + n / 10 % 10) ∷ (48 + n % 10) ∷ []

decimal-IsDecimal : IsDecimal decimal
decimal-IsDecimal n small = omega arith

abbrev agent : CatalogEntry
agent = record {
  id = "e1";
  endpoint = some "http://agent/";
  status = active;
  last_seen = 5;
  health_last_probed_at = some 5;
  health_last_success_at = some 5;
  health_last_error = [];
  health_latency_ms = 12;
  health_consecutive_failures = 0;
}

abbrev twin : CatalogEntry
twin = record agent { id = "e2" }

different : (a b : String) → a == b ≡ false → a ≢ b
different a b h e = ground (arith, eq_iff a b)

abbrev outage : List Probe
outage = (30, no_answer (codes "refused")) ∷ (40, answered 503 7) ∷ (50, invalid_url []) ∷ []

runs : Unit {0}
unfolding probes probe_one truncate_str allow allow_all patch_lifecycle get set_lifecycle
    update_health list_for_probing check_all ◌>>=◌ context context_for attempt
runs = tt

-- Two failures degrade, the third takes the entry offline; a slow answer degrades it.
prober_tests :
    ((probes decimal plugin ((10, no_answer []) ∷ (20, answered 404 1) ∷ []) agent).status
      ≡ degraded)
    × ((probes decimal plugin outage agent).status ≡ offline)
    × ((probes decimal plugin (outage ++ (60, answered 200 1600000000) ∷ []) agent).status
        ≡ degraded)
    × ((world (list_for_probing 9 4 (calm (twin ∷ agent ∷ [])))).tables ≡ twin ∷ agent ∷ [])
unfolding runs
prober_tests = (refl, refl, refl, refl)

-- A round stores what it found for each entry that is due.
round_test :
    (check_all decimal plugin
      (λ e. 100)
      (λ e. answered 204 3)
      99
      30
      1
      (calm (agent ∷ record twin { status = deprecated } ∷ []))).tables
    ≡ record agent {
      last_seen = 100;
      health_last_probed_at = some 100;
      health_last_success_at = some 100;
      health_latency_ms = 0;
    }
      ∷ record twin { status = deprecated }
      ∷ []
unfolding runs
round_test = refl

probes_after_success_example :
    let e' = probes decimal plugin ((10, no_answer []) ∷ (20, answered 200 9) ∷ outage) agent in
    (e'.health_consecutive_failures ≡ length outage)
    × (e'.health_last_success_at ≡ some 20)
    × (e'.status
        ≡ state_after decimal plugin
            (if ltb plugin.degraded_latency 9 then degraded else active)
            3
            3)
probes_after_success_example =
    probes_after_success decimal plugin ((10, no_answer []) ∷ []) 20 200 9 outage agent
      (different active deprecated refl) (different "http://agent/" "" refl) refl
      (refl, (refl, (refl, tt)))

probe_one_error_fits_example :
    length (probe_one decimal plugin 70 agent (answered 503 7)).last_error ≤ 512
probe_one_error_fits_example =
    probe_one_error_fits decimal plugin 70 decimal-IsDecimal agent (answered 503 7) (omega arith)
      (omega arith)

first_allowed : (allow 5 "e1" 10 new_limiter).0 ≡ true
unfolding runs
first_allowed = refl

allow_after_window_example :
    (allow 5 "e1" 16 (allow_all 5 (("e1", 12) ∷ ("e2", 13) ∷ []) (allow 5 "e1" 10 new_limiter).1)).0
    ≡ not (ltb (16 - 10) 5)
allow_after_window_example =
    allow_after_window 5 "e1" 10 new_limiter (("e1", 12) ∷ ("e2", 13) ∷ []) 16 first_allowed
      (omega arith, (omega arith, tt))

stale_probe_undoes_deprecation_example :
    let between = world (set_lifecycle "e1" deprecated (calm (twin ∷ agent ∷ []))) in
    let after =
      world (update_health "e1" (probe_one decimal plugin 10 agent (answered 200 1)) between) in
    ((d : CatalogEntry) × (find? (has_id "e1") between.tables ≡ some d) × (d.status ≡ deprecated))
    × ((d : CatalogEntry) × (find? (has_id "e1") after.tables ≡ some d) × (d.status ≢ deprecated))
stale_probe_undoes_deprecation_example =
    stale_probe_undoes_deprecation decimal plugin (twin ∷ agent ∷ []) agent 10 (answered 200 1) refl
      (different active deprecated refl) (different "http://agent/" "" refl)

abbrev retired : CatalogEntry
retired = record agent { status = deprecated }

patched :
    patch_lifecycle "e1" (some deprecated) (calm (twin ∷ agent ∷ []))
    ≡ (entry retired, calm (twin ∷ retired ∷ []))
unfolding runs
patched = refl

patch_lifecycle_answers_example :
    (state : String) × (some deprecated ≡ some state)
    × ((state ≡ deprecated) ⊎ (state ≡ active))
    × IsMoved "e1" state (calm (twin ∷ agent ∷ [])) (calm (twin ∷ retired ∷ [])) retired
patch_lifecycle_answers_example =
    patch_lifecycle_answers "e1" (some deprecated) (calm (twin ∷ agent ∷ []))
      (calm (twin ∷ retired ∷ [])) retired patched
