-- ===== src/Health.antt =====
-- plugins/health/health.go and health_prober.go, with the parts of internal/model/agent.go that they
-- read. Times and durations are nanoseconds. The clock, the HTTP client and the decimal form that
-- `%d` prints are arguments; a `Text` is the list of the bytes of a Go string.
pub mod Store
pub mod Limiter
pub mod Handlers
mod Transitions
mod Interleavings
mod Answers
mod Limits
mod Tests
use agentlens.Common.{
  ℕ, ◌+◌, ◌*◌, ◌/◌, String, Bool, true, false, ◌&&◌, Option, none, some, List, [], ◌∷◌, ◌++◌,
  length, take, ltb, leb, Text, codes, ◌==◌, if◌then◌else◌,
}

abbrev pub active : String
active = "active"

abbrev pub degraded : String
degraded = "degraded"

abbrev pub offline : String
offline = "offline"

abbrev pub deprecated : String
deprecated = "deprecated"

pub record Health : Type 0 where
  pub state : String
  pub last_probed_at : Option ℕ
  pub last_success_at : Option ℕ
  pub last_error : Text
  pub latency_ms : ℕ
  pub consecutive_failures : ℕ

-- A row with its agent type joined; `endpoint` is `none` where no agent type is loaded.
pub record CatalogEntry : Type 0 where
  pub id : String
  pub endpoint : Option String
  pub status : String
  pub last_seen : ℕ
  pub health_last_probed_at : Option ℕ
  pub health_last_success_at : Option ℕ
  pub health_last_error : Text
  pub health_latency_ms : ℕ
  pub health_consecutive_failures : ℕ

-- `entry.Health`, as `SyncFromDB` builds it.
abbrev pub health : CatalogEntry → Health
health e = record {
  state = e.status;
  last_probed_at = e.health_last_probed_at;
  last_success_at = e.health_last_success_at;
  last_error = e.health_last_error;
  latency_ms = e.health_latency_ms;
  consecutive_failures = e.health_consecutive_failures;
}

-- The settings of a Plugin that a probe reads.
pub record Plugin : Type 0 where
  pub degraded_latency : ℕ
  pub failure_threshold : ℕ

-- What becomes of a request: `http.NewRequestWithContext` refuses the URL, `Do` fails, or an answer
-- with a status code comes after a time.
pub data Reply : Type 0 where
  invalid_url : Text → Reply
  no_answer : Text → Reply
  answered : (status_code latency : ℕ) → Reply

unfoldable pub truncate_str : Text → ℕ → Text
truncate_str s max_len = if leb (length s) max_len then s else take max_len s

abbrev pub resolve_prob_url : CatalogEntry → String
resolve_prob_url e = elim e.endpoint [ none ↦ "" | some url ↦ url ]

module _ (p : Plugin) (now : ℕ) where
  abbrev pub success_health : ℕ → Health
  success_health latency = record {
    state = if ltb p.degraded_latency latency then degraded else active;
    last_probed_at = some now;
    last_success_at = some now;
    last_error = [];
    latency_ms = latency / 1000000;
    consecutive_failures = 0;
  }

  abbrev pub failure_health : Health → Text → Health
  failure_health current err_msg =
      let failures = current.consecutive_failures + 1 in
      record {
        state = if leb p.failure_threshold failures then offline else degraded;
        last_probed_at = some now;
        last_success_at = current.last_success_at;
        last_error = err_msg;
        latency_ms = 0;
        consecutive_failures = failures;
      }

  abbrev pub no_url_health : Health → Health
  no_url_health current = record {
    state = offline;
    last_probed_at = some now;
    last_success_at = current.last_success_at;
    last_error = codes "no probeable endpoint";
    latency_ms = 0;
    consecutive_failures = current.consecutive_failures + 1;
  }

abbrev pub is_2xx : ℕ → Bool
is_2xx status_code = leb 200 status_code && ltb status_code 300

module _ (print : ℕ → Text) (p : Plugin) (now : ℕ) where
  -- The health that a request leads to.
  abbrev pub health_after : Health → Reply → Health
  health_after current (invalid_url err) =
      failure_health p now current (truncate_str (codes "invalid URL: " ++ err) 512)
  health_after current (no_answer err) = failure_health p now current (truncate_str err 512)
  health_after current (answered status_code latency) =
      if is_2xx status_code
      then success_health p now latency
      else failure_health p now current (codes "HTTP " ++ print status_code)

  -- `reply` is what a request to the URL of the entry meets.
  unfoldable pub probe_one : CatalogEntry → Reply → Health
  probe_one entry reply =
      if entry.status == deprecated
      then health entry
      else if resolve_prob_url entry == ""
      then no_url_health p now (health entry)
      else health_after (health entry) reply

unfoldable pub probe_result_string : String → String
probe_result_string state =
    if state == active
    then "success"
    else if state == degraded
    then "degraded"
    else if state == offline
    then "failure"
    else "unknown"
