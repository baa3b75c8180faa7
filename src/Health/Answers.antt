-- ===== src/Health/Answers.antt =====
-- What a successful answer of PatchLifecycle says.
use agentlens.Common.{
  String, ◌≡◌, refl, sym, ap, ◌∙◌, ◌⊎◌, inl, inr, true, Option, none, some, find?, update,
  Bool-cases, ◌==◌, eq_iff, arith,
}
use agentlens.Sql.{World, Outcome, done, raised, M, return, context, query}
use agentlens.Sql.Laws.{bind-done, context-done, context_for-done, if-done, statement-done}
use agentlens.Health.{active, deprecated, CatalogEntry}
use agentlens.Health.Store.{Entries, has_id, get, loaded, set_lifecycle}
use agentlens.Health.Handlers.{
  entry, is_manual_state, respond_updated, respond_set, respond_found, patch_lifecycle,
}
use agentlens.Health.Interleavings.{find?-update, some_inj}

done_inj :
    {A : Type 0} {a b : A} {v w : World Entries}
    → done a v ≡ done b w
    → (a ≡ b) × (v.tables ≡ w.tables)
done_inj h = (ground arith, ground arith)

load_capabilities-done :
    (endpoint : Option String) (u : Unit {0}) (w w' : World Entries)
    → (elim endpoint as (λ _. M Entries (Unit {0})) [
      | none ↦ return tt
      | some url ↦ context "loading capabilities" (query (λ es. tt))
    ])
        w
      ≡ done u w'
    → w'.tables ≡ w.tables
load_capabilities-done none u w w' h = sym (done_inj h).1
load_capabilities-done (some url) u w w' h =
    sym (statement-done _ w u w' (context-done _ _ w w' u h)).1

loaded-done :
    (o o' : Option CatalogEntry) (w w' : World Entries)
    → loaded o w ≡ done o' w'
    → (o' ≡ o) × (w'.tables ≡ w.tables)
loaded-done none o' w w' h = (sym (done_inj h).0, sym (done_inj h).1)
loaded-done (some e) o' w w' h =
    let (u, v, ran, last) = bind-done _ _ w w' o' h in
    (sym (done_inj last).0, sym (done_inj last).1 ∙ load_capabilities-done e.endpoint u w v ran)

get-done :
    (id : String) (o : Option CatalogEntry) (w w' : World Entries)
    → get id w ≡ done o w'
    → (find? (has_id id) w.tables ≡ o) × (w'.tables ≡ w.tables)
unfolding get
get-done id o w w' h =
    let (first, v, ran, rest) = bind-done _ _ w w' o h in
    let (read, same) = statement-done _ w first v (context-done _ _ w v first ran) in
    let (kept, unchanged) = loaded-done first o v w' rest in (read ∙ sym kept, unchanged ∙ sym same)

set_lifecycle-done :
    (id state : String) (u : Unit {0}) (w w' : World Entries)
    → set_lifecycle id state w ≡ done u w'
    → update (has_id id) (λ d. record d { status = state }) w.tables ≡ w'.tables
unfolding set_lifecycle
set_lifecycle-done id state u w w' h =
    let (changed, v, ran, rest) = bind-done _ _ w w' u h in
    let (read, same) = statement-done _ w changed v (context_for-done _ _ w v changed ran) in
    elim (if-done changed _ _ v w' u rest) [
      | inl (yes_rows, r) ↦ same ∙ (done_inj r).1
      | inr (no_rows, r) ↦ cc
    ]

respond_updated-entry :
    (o : Outcome Entries (Option CatalogEntry)) (u : CatalogEntry) (w' : World Entries)
    → respond_updated o ≡ (entry u, w')
    → o ≡ done (some u) w'
respond_updated-entry (done (some v) w) u w' h = ground arith
respond_updated-entry (done none w) u w' h = cc
respond_updated-entry (raised e w) u w' h = cc

respond_set-entry :
    (id : String) (o : Outcome Entries (Unit {0})) (u : CatalogEntry) (w' : World Entries)
    → respond_set id o ≡ (entry u, w')
    → (v : World Entries) × (o ≡ done tt v) × (get id v ≡ done (some u) w')
respond_set-entry id (done x w) u w' h = (w, refl, respond_updated-entry (get id w) u w' h)
respond_set-entry id (raised e w) u w' h = cc

respond_found-entry :
    (id state : String) (o : Outcome Entries (Option CatalogEntry)) (u : CatalogEntry)
    (w' : World Entries)
    → respond_found id state o ≡ (entry u, w')
    → (found : CatalogEntry) × (w : World Entries) × (o ≡ done (some found) w)
      × (respond_set id (set_lifecycle id state w) ≡ (entry u, w'))
respond_found-entry id state (done (some found) w) u w' h = (found, w, refl, h)
respond_found-entry id state (done none w) u w' h = cc
respond_found-entry id state (raised e w) u w' h = cc

pub record IsMoved (id state : String) (w w' : World Entries) (u : CatalogEntry) : Type 0 where
  pub before : CatalogEntry
  pub read : find? (has_id id) w.tables ≡ some before
  pub reread : find? (has_id id) w'.tables ≡ some u
  pub moved : u ≡ record before { status = state }

calls-IsMoved :
    (id state : String) (u found : CatalogEntry) (w v v' w' : World Entries)
    → get id w ≡ done (some found) v
    → set_lifecycle id state v ≡ done tt v'
    → get id v' ≡ done (some u) w'
    → IsMoved id state w w' u
calls-IsMoved id state u found w v v' w' first set last =
    let (read, kept) = get-done id _ w v first in
    let moved = set_lifecycle-done id state tt v v' set in
    let (reread, kept') = get-done id _ v' w' last in
    let row =
      find?-update id (λ d. record d { status = state }) (λ d. refl) v.tables
        (ap (find? (has_id id)) kept ∙ read) in
    record {
      before = found;
      read = read;
      reread = ap (find? (has_id id)) kept' ∙ reread;
      moved = some_inj (sym reread ∙ ap (find? (has_id id)) (sym moved) ∙ row);
    }

respond-IsMoved :
    (id state : String) (u : CatalogEntry) (w w' : World Entries)
    → respond_found id state (get id w) ≡ (entry u, w')
    → IsMoved id state w w' u
respond-IsMoved id state u w w' h =
    let (found, v, first, rest) = respond_found-entry id state (get id w) u w' h in
    let (v', set, last) = respond_set-entry id (set_lifecycle id state v) u w' rest in
    calls-IsMoved id state u found w v v' w' first set last

manual_states :
    (state : String) → is_manual_state state ≡ true → (state ≡ deprecated) ⊎ (state ≡ active)
manual_states state h = elim (Bool-cases (state == deprecated)) [
  | inl e ↦ inl ((eq_iff state deprecated).0 e)
  | inr n ↦ inr ((eq_iff state active).0 (ground arith))
]

-- When PatchLifecycle answers with an entry, whichever statements could have failed, the state asked
-- for is one of the two manual ones, and the entry is the stored row, which is the row of before
-- with that state.
pub patch_lifecycle_answers :
    (id : String) (body : Option String) (w w' : World Entries) (u : CatalogEntry)
    → patch_lifecycle id body w ≡ (entry u, w')
    → (state : String) × (body ≡ some state)
      × ((state ≡ deprecated) ⊎ (state ≡ active))
      × IsMoved id state w w' u
unfolding patch_lifecycle
patch_lifecycle_answers id none w w' u h = cc
patch_lifecycle_answers id (some state) w w' u h = elim (Bool-cases (is_manual_state state)) [
  | inl manual ↦ (
    state,
    refl,
    manual_states state manual,
    respond-IsMoved id state u w w' (sym (rw manual refl) ∙ h),
  )
  | inr other ↦ let clash = rw other at h in cc
]
