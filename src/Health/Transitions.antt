-- ===== src/Health/Transitions.antt =====
-- The state machine that a sequence of probes drives, against a description by its last success.
use agentlens.Common.{
  ℕ, zero, suc, ◌+◌, String, ◌≡◌, ◌≢◌, refl, sym, ap, ap₂, ◌∙◌, Bool, true, false, some, List, [],
  ◌∷◌, ◌++◌, All, Text, length, ltb, leb, Bool-cases, inl, inr, ◌==◌, eq_iff, ==-false,
  if◌then◌else◌, arith,
}
use agentlens.Health.{
  active, degraded, offline, deprecated, Health, CatalogEntry, health, Plugin, Reply, invalid_url,
  no_answer, answered, is_2xx, resolve_prob_url, probe_one, health_after, success_health,
}
use agentlens.Health.Store.{with_health}

-- One probe: the time of its result and what its request meets.
abbrev pub Probe : Type 0
Probe = ℕ × Reply

abbrev pub succeeds : Reply → Bool
succeeds (invalid_url err) = false
succeeds (no_answer err) = false
succeeds (answered status_code latency) = is_2xx status_code

module _ (print : ℕ → Text) (p : Plugin) where
  -- The entry after each result is stored.
  unfoldable pub probes : List Probe → CatalogEntry → CatalogEntry
  probes [] e = e
  probes ((now, reply) ∷ rest) e = probes rest (with_health (probe_one print p now e reply) e)

  abbrev pub IsProbed : CatalogEntry → Type 0
  IsProbed e = (e.status ≢ deprecated) × (resolve_prob_url e ≢ "")

  probe_one_run :
      (now : ℕ) (e : CatalogEntry) (reply : Reply)
      → IsProbed e
      → probe_one print p now e reply ≡ health_after print p now (health e) reply
  unfolding probe_one
  probe_one_run now e reply (live, url) = rw (==-false _ _ live) (rw (==-false _ _ url) refl)

  failed_health :
      (now : ℕ) (current : Health) (reply : Reply)
      → succeeds reply ≡ false
      → let h = health_after print p now current reply in
        (h.consecutive_failures ≡ current.consecutive_failures + 1)
        × (h.last_success_at ≡ current.last_success_at)
        × (h.state ≡ (
            if leb p.failure_threshold (current.consecutive_failures + 1)
            then offline
            else degraded))
  failed_health now current (invalid_url err) f = (refl, refl, refl)
  failed_health now current (no_answer err) f = (refl, refl, refl)
  failed_health now current (answered status_code latency) f = rw f (refl, refl, refl)

  not_deprecated : (state : String) → state == deprecated ≡ false → state ≢ deprecated
  not_deprecated state h e = ground (arith, eq_iff state deprecated)

  failed_state : (b : Bool) → (if b then offline else degraded) ≢ deprecated
  failed_state true = not_deprecated offline refl
  failed_state false = not_deprecated degraded refl

  success_state : (b : Bool) → (if b then degraded else active) ≢ deprecated
  success_state true = not_deprecated degraded refl
  success_state false = not_deprecated active refl

  health_after-live :
      (now : ℕ) (current : Health) (reply : Reply)
      → (health_after print p now current reply).state ≢ deprecated
  health_after-live now current (invalid_url err) = failed_state _
  health_after-live now current (no_answer err) = failed_state _
  health_after-live now current (answered status_code latency) =
      elim (Bool-cases (is_2xx status_code)) [
        | inl ok ↦ rw ok (success_state _)
        | inr bad ↦ rw bad (failed_state _)
      ]

  pub probe-IsProbed :
      (now : ℕ) (e : CatalogEntry) (reply : Reply)
      → IsProbed e
      → IsProbed (with_health (probe_one print p now e reply) e)
  probe-IsProbed now e reply (live, url) = (
    λ same.
        health_after-live now (health e) reply
          (ap (λ h. h.state) (sym (probe_one_run now e reply (live, url))) ∙ same),
    url,
  )

  probes-IsProbed : (ps : List Probe) (e : CatalogEntry) → IsProbed e → IsProbed (probes ps e)
  unfolding probes
  probes-IsProbed [] e v = v
  probes-IsProbed ((now, reply) ∷ ps) e v = probes-IsProbed ps _ (probe-IsProbed now e reply v)

  probes-append :
      (ps qs : List Probe) (e : CatalogEntry) → probes (ps ++ qs) e ≡ probes qs (probes ps e)
  unfolding probes
  probes-append [] qs e = refl
  probes-append ((now, reply) ∷ ps) qs e = probes-append ps qs _

  -- The state after a run of failures that brings their number to `failures`.
  abbrev pub state_after : String → (run failures : ℕ) → String
  state_after before zero failures = before
  state_after before (suc run) failures =
      if leb p.failure_threshold failures then offline else degraded

  abbrev IsFailedRun : CatalogEntry → List Probe → CatalogEntry → Type 0
  IsFailedRun e fails e' =
      (e'.health_consecutive_failures ≡ e.health_consecutive_failures + length fails)
      × (e'.health_last_success_at ≡ e.health_last_success_at)
      × (e'.status
          ≡ state_after e.status (length fails) (e.health_consecutive_failures + length fails))

  failures_run :
      (fails : List Probe) (e : CatalogEntry)
      → IsProbed e
      → All (λ f. succeeds f.1 ≡ false) fails
      → IsFailedRun e fails (probes fails e)
  unfolding probes
  failures_run [] e v failed = (omega arith, refl, refl)
  failures_run ((now, reply) ∷ fails) e v (f, failed) =
      let first = probe_one_run now e reply v in
      let (count, success, state) = failed_health now (health e) reply f in
      let (n, s, q) = failures_run fails _ (probe-IsProbed now e reply v) failed in
      let counted = ap (λ h. h.consecutive_failures) first ∙ count in
      (
        omega arith,
        s ∙ ap (λ h. h.last_success_at) first ∙ success,
        q ∙ settled fails _ _ counted (ap (λ h. h.state) first ∙ state),
      )
    where
      settled :
          (fails : List Probe) (s : String) (k : ℕ)
          → k ≡ e.health_consecutive_failures + 1
          → s ≡ (
              if leb p.failure_threshold (e.health_consecutive_failures + 1)
              then offline
              else degraded)
          → state_after s (length fails) (k + length fails) ≡ (
              if leb p.failure_threshold (e.health_consecutive_failures + suc (length fails))
              then offline
              else degraded)
      settled [] s k counted state =
          state ∙ ap (λ n. if leb p.failure_threshold n then offline else degraded) (omega arith)
      settled (g ∷ gs) s k counted state =
          ap (λ n. if leb p.failure_threshold n then offline else degraded) (omega arith)

  success_run :
      (t status_code latency : ℕ) (e : CatalogEntry)
      → IsProbed e
      → is_2xx status_code ≡ true
      → probe_one print p t e (answered status_code latency) ≡ success_health p t latency
  success_run t status_code latency e v ok =
      probe_one_run t e (answered status_code latency) v ∙ rw ok refl

  after_success :
      (t status_code latency : ℕ) (fails : List Probe) (e : CatalogEntry)
      → IsProbed e
      → is_2xx status_code ≡ true
      → All (λ f. succeeds f.1 ≡ false) fails
      → let e' = probes ((t, answered status_code latency) ∷ fails) e in
        (e'.health_consecutive_failures ≡ length fails)
        × (e'.health_last_success_at ≡ some t)
        × (e'.status
            ≡ state_after
                (if ltb p.degraded_latency latency then degraded else active)
                (length fails)
                (length fails))
  unfolding probes
  after_success t status_code latency fails e v ok failed =
      let first = success_run t status_code latency e v ok in
      let (n, s, q) =
        failures_run fails _ (probe-IsProbed t e (answered status_code latency) v) failed in
      let none_yet = ap (λ h. h.consecutive_failures) first in
      (
        omega arith,
        s ∙ ap (λ h. h.last_success_at) first,
        q
            ∙ ap₂ (λ state n. state_after state (length fails) n) (ap (λ h. h.state) first)
                (omega arith),
      )

  -- The number of failures, the last success and the state after any history of probes of an entry
  -- that is not deprecated and has an endpoint: only what follows the last success counts. The entry
  -- is active or degraded by the latency of that success, until failures follow; then it is
  -- degraded while they are fewer than the threshold, and offline from there on.
  pub probes_after_success :
      (earlier : List Probe) (t status_code latency : ℕ) (fails : List Probe) (e : CatalogEntry)
      → (e.status ≢ deprecated)
      → (resolve_prob_url e ≢ "")
      → is_2xx status_code ≡ true
      → All (λ f. succeeds f.1 ≡ false) fails
      → let e' = probes (earlier ++ (t, answered status_code latency) ∷ fails) e in
        (e'.health_consecutive_failures ≡ length fails)
        × (e'.health_last_success_at ≡ some t)
        × (e'.status
            ≡ state_after
                (if ltb p.degraded_latency latency then degraded else active)
                (length fails)
                (length fails))
  unfolding probes
  probes_after_success earlier t status_code latency fails e live url ok failed =
      let v = probes-IsProbed earlier e (live, url) in
      rw (probes-append earlier ((t, answered status_code latency) ∷ fails) e)
        (after_success t status_code latency fails (probes earlier e) v ok failed)
