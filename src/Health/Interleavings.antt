-- ===== src/Health/Interleavings.antt =====
-- Probes and the lifecycle API on the same row.
use agentlens.Common.{
  ℕ, String, ◌≡◌, ◌≢◌, refl, ap, ◌∙◌, true, some, [], ◌∷◌, Text, any, find?, update, Bool-cases,
  inl, inr, ◌==◌, eq_iff,
}
use agentlens.Sql.{done, calm, world}
use agentlens.Sql.Laws.{bind_run, context_for_run, statement_calm, if_run_true}
use agentlens.Health.{deprecated, Health, CatalogEntry, Plugin, Reply, resolve_prob_url, probe_one}
use agentlens.Health.Store.{Entries, has_id, with_health, update_health, set_lifecycle}
use agentlens.Health.Transitions.{probe-IsProbed}

pub some_inj : {A : Type 0} {x y : A} → some x ≡ some y → x ≡ y
some_inj e = cc

module _ (id : String) (f : CatalogEntry → CatalogEntry)
    (same : (e : CatalogEntry) → (f e).id ≡ e.id) where
  pub find?-update :
      (es : Entries) {e : CatalogEntry}
      → find? (has_id id) es ≡ some e
      → find? (has_id id) (update (has_id id) f es) ≡ some (f e)
  find?-update [] h = cc
  find?-update (d ∷ es) {e} h = elim (Bool-cases (d.id == id)) [
    | inl hit ↦
        let moved : ((f d).id == id) ≡ true =
          (eq_iff (f d).id id).1 (same d ∙ (eq_iff d.id id).0 hit) in
        let here : some d ≡ some e = rw hit at h in
        rw hit (rw moved (ap some (ap f (some_inj here))))
    | inr miss ↦ rw miss (rw miss (find?-update es (rw miss at h)))
  ]

  any_found :
      (es : Entries) {e : CatalogEntry} → find? (has_id id) es ≡ some e → any (has_id id) es ≡ true
  any_found [] h = cc
  any_found (d ∷ es) {e} h = elim (Bool-cases (d.id == id)) [
    | inl hit ↦ rw hit refl
    | inr miss ↦ rw miss (any_found es (rw miss at h))
  ]

module _ (id : String) (es : Entries) {e : CatalogEntry}
    (found : find? (has_id id) es ≡ some e) where
  set_lifecycle-calm :
      (state : String)
      → set_lifecycle id state (calm es)
        ≡ done tt (calm (update (has_id id) (λ d. record d { status = state }) es))
  unfolding set_lifecycle
  set_lifecycle-calm state =
      bind_run _ _ (context_for_run _ _ (statement_calm _ es))
      ∙ if_run_true _ _ _ (any_found id (λ d. record d { status = state }) (λ d. refl) es found)

  update_health-calm :
      (h : Health)
      → update_health id h (calm es) ≡ done tt (calm (update (has_id id) (with_health h) es))
  unfolding update_health
  update_health-calm h =
      bind_run _ _ (context_for_run _ _ (statement_calm _ es))
      ∙ if_run_true _ _ _ (any_found id (with_health h) (λ d. refl) es found)

module _ (print : ℕ → Text) (p : Plugin) where
  -- A probe that has read an entry before an administrator deprecates it, and stores its result
  -- after, undoes the deprecation: the entry ends with a state of the probe.
  pub stale_probe_undoes_deprecation :
      (es : Entries) (e : CatalogEntry) (now : ℕ) (reply : Reply)
      → find? (has_id e.id) es ≡ some e
      → (e.status ≢ deprecated)
      → (resolve_prob_url e ≢ "")
      → let between = world (set_lifecycle e.id deprecated (calm es)) in
        let after = world (update_health e.id (probe_one print p now e reply) between) in
        ((d : CatalogEntry) × (find? (has_id e.id) between.tables ≡ some d)
          × (d.status ≡ deprecated))
        × ((d : CatalogEntry) × (find? (has_id e.id) after.tables ≡ some d)
            × (d.status ≢ deprecated))
  stale_probe_undoes_deprecation es e now reply found live url =
      let set = set_lifecycle-calm e.id es found deprecated in
      let there = find?-update e.id (λ d. record d { status = deprecated }) (λ d. refl) es found in
      let h = probe_one print p now e reply in
      let stored = update_health-calm e.id _ there h in
      let last = find?-update e.id (with_health h) (λ d. refl) _ there in
      let stays = (probe-IsProbed print p now e reply (live, url)).0 in
      rw set (rw stored ((_, there, refl), (_, last, stays)))
