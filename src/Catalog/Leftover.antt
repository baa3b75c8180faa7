-- ===== src/Catalog/Leftover.antt =====
-- Deleting an entry leaves its agent type behind, and with it the key and version of the agent.
use agentlens.Common.{
  String, ◌≡◌, refl, sym, ap, ◌∙◌, inl, inr, Bool, true, false, not, Option, none, some, List, [],
  ◌∷◌, ◌++◌, any, filter, Bool-cases, some_inj, eq_iff, if◌then◌else◌, ◌==◌, arith,
}
use agentlens.Sql.{
  World, Outcome, done, raised, world, M, ◌>>=◌, return, context, attempt, transaction,
}
use agentlens.Sql.Laws.{attempt-done, statement-done, context-done, bind-done, transaction-done}
use agentlens.Sql.Keeps.{
  Keeps, Keeps-return, Keeps-raise, Keeps-context, Keeps-bind, Keeps-execute, Keeps-attempt,
  Keeps-if,
}
use agentlens.Tables.{Tables}
use agentlens.Party.Projects.{get_default_project, is_membership}
use agentlens.Catalog.{
  AgentType, CapabilityRow, CatalogEntry, Catalog, on_parties, same_agent, insert_agent_type,
  insert_entry, has_entry_id, insert_capabilities, with_capabilities, append_rows,
  insert_membership, put_back, to_rows, store_rows, assign_default, create_tx, create, delete,
}

insert_agent_type-done :
    (a : AgentType) (c d : Catalog) (u : Unit {0})
    → insert_agent_type a c ≡ some (u, d)
    → (any (same_agent a) c.agent_types ≡ false) × (d.agent_types ≡ c.agent_types ++ a ∷ [])
insert_agent_type-done a c d u h = elim (Bool-cases (any (same_agent a) c.agent_types)) [
  | inl taken ↦ let clash = rw taken at h in cc
  | inr free ↦
      (free, ap (λ (x : Catalog). x.agent_types) (sym (ap (λ p. p.1) (some_inj (rw free at h)))))
]

module _ (rows_of : List AgentType) where
  -- The table agent_types is as given.
  abbrev Kept : Catalog → Type 0
  Kept c = c.agent_types ≡ rows_of

  insert_capabilities-Keeps :
      (text : String) (rows : List CapabilityRow)
      → Keeps Kept (context text (attempt (insert_capabilities rows)))
  insert_capabilities-Keeps text rows = Keeps-context text (Keeps-attempt _ inserted)
    where
      stored :
          (c d : Catalog) (u : Unit {0}) (o : Option (List CapabilityRow))
          → Kept c
          → with_capabilities c o ≡ some (u, d)
          → Kept d
      stored c d u none p h = cc
      stored c d u (some rs) p h =
          ap (λ (x : Catalog). x.agent_types) (sym (ap (λ q. q.1) (some_inj h))) ∙ p

      inserted :
          (c d : Catalog) (u : Unit {0})
          → Kept c
          → insert_capabilities rows c ≡ some (u, d)
          → Kept d
      inserted c d u p h = stored c d u (append_rows c.capabilities rows) p h

  store_rows-Keeps :
      {C : Type 0} (to_row : String → C → Option CapabilityRow) (text : String)
      (o : Option (List CapabilityRow))
      → Keeps Kept (store_rows to_row text o)
  store_rows-Keeps to_row text none = Keeps-raise _
  store_rows-Keeps to_row text (some []) = Keeps-return _
  store_rows-Keeps to_row text (some (r ∷ rs)) = insert_capabilities-Keeps text (r ∷ rs)

  insert_entry-Keeps :
      (text : String) (e : CatalogEntry) → Keeps Kept (context text (attempt (insert_entry e)))
  insert_entry-Keeps text e = Keeps-context text (Keeps-attempt _ inserted)
    where
      inserted : (c d : Catalog) (u : Unit {0}) → Kept c → insert_entry e c ≡ some (u, d) → Kept d
      inserted c d u p h = elim (Bool-cases (any (has_entry_id e.id) c.entries)) [
        | inl taken ↦ let clash = rw taken at h in cc
        | inr free ↦
            ap (λ (x : Catalog). x.agent_types) (sym (ap (λ q. q.1) (some_inj (rw free at h)))) ∙ p
      ]

  assign_default-Keeps :
      {C : Type 0} (to_row : String → C → Option CapabilityRow) (entry project : String)
      → Keeps Kept (assign_default to_row entry project)
  assign_default-Keeps to_row entry project =
      Keeps-if (project == "") (Keeps-return _) (Keeps-context _ (Keeps-attempt _ inserted))
    where
      inserted :
          (c d : Catalog) (u : Unit {0})
          → Kept c
          → insert_membership entry project c ≡ some (u, d)
          → Kept d
      inserted c d u p h =
          elim (Bool-cases (any (is_membership entry project) c.parties.memberships)) [
            | inl taken ↦ let clash = rw taken at h in cc
            | inr free ↦
                ap (λ (x : Catalog). x.agent_types) (sym (ap (λ q. q.1) (some_inj (rw free at h))))
                ∙ p
          ]

  on_parties-Keeps : {A : Type 0} (m : M Tables A) → Keeps Kept (on_parties m)
  unfolding on_parties
  on_parties-Keeps {A} m = record {
    after = λ w p. go w p (m (record { tables = w.tables.parties; faults = w.faults }));
  }
    where
      go :
          (w : World Catalog)
          → Kept w.tables
          → (o : Outcome Tables A) → Kept (world (put_back w.tables o)).tables
      go w p (done a v) = p
      go w p (raised e v) = p

  delete-Keeps : (id : String) → Keeps Kept (delete id)
  unfolding delete
  delete-Keeps id = Keeps-context _ (Keeps-execute _ (λ c p. p))

module _ {C : Type 0} (to_row : String → C → Option CapabilityRow) where
  -- What follows the insertion of the agent type.
  create_tx-done :
      (project : String) (e : CatalogEntry) (a : AgentType) (caps : List C) (w v : World Catalog)
      → create_tx to_row project e a caps w ≡ done tt v
      → (any (same_agent a) w.tables.agent_types ≡ false)
        × (v.tables.agent_types ≡ w.tables.agent_types ++ a ∷ [])
  create_tx-done project e a caps w v h =
      let (u3, x3, third, last) =
        bind-done _ (λ (u : Unit {0}). assign_default to_row e.id project) w v tt h in
      let (u2, x2, second, entry) =
        bind-done _
          (λ (u : Unit {0}).
            context "inserting catalog entry"
              (attempt (insert_entry (record e { agent_type_id = a.id }))))
          w x3 u3 third in
      let (u1, x1, first, stored) =
        bind-done _
          (λ (u : Unit {0}). store_rows to_row "inserting capabilities" (to_rows to_row a.id caps))
          w x2 u2 second in
      let (free, added) =
        insert_agent_type-done a w.tables x1.tables u1
          (attempt-done (insert_agent_type a) w u1 x1 (context-done _ _ w x1 u1 first)) in
      let all = w.tables.agent_types ++ a ∷ [] in
      let after1 : x2.tables.agent_types ≡ all = rw stored at (
        (store_rows-Keeps all to_row "inserting capabilities" (to_rows to_row a.id caps)).after x1
          added) in
      let after2 : x3.tables.agent_types ≡ all = rw entry at (
        (insert_entry-Keeps all "inserting catalog entry" (record e { agent_type_id = a.id })).after
          x2 after1) in
      (free, rw last at ((assign_default-Keeps all to_row e.id project).after x3 after2))

  default_project : Bool → M Catalog String
  default_project with_parties =
      if with_parties
      then context "resolving default project" (on_parties get_default_project)
        >>= (λ p. return p.id)
      else return ""

  default_project-Keeps :
      (rows_of : List AgentType) (with_parties : Bool)
      → Keeps (λ (c : Catalog). c.agent_types ≡ rows_of) (default_project with_parties)
  unfolding default_project
  default_project-Keeps rows_of with_parties =
      Keeps-if with_parties
        (Keeps-bind (Keeps-context _ (on_parties-Keeps rows_of get_default_project))
          (λ p. Keeps-return p.id))
        (Keeps-return "")

  -- A Create that succeeds has added a key and version that were not there.
  create-done :
      (with_parties : Bool) (e : CatalogEntry) (a : AgentType) (caps : List C) (w v : World Catalog)
      → create to_row with_parties e (some (a, caps)) w ≡ done tt v
      → (any (same_agent a) w.tables.agent_types ≡ false)
        × (v.tables.agent_types ≡ w.tables.agent_types ++ a ∷ [])
  unfolding create default_project
  create-done with_parties e a caps w v h =
      let (project, x, first, second) =
        bind-done (default_project with_parties)
          (λ project. transaction (create_tx to_row project e a caps)) w v tt h in
      let (y, ran, same) = transaction-done (create_tx to_row project e a caps) x tt v second in
      let kept : x.tables.agent_types ≡ w.tables.agent_types =
        rw first at ((default_project-Keeps w.tables.agent_types with_parties).after w refl) in
      let (free, added) = create_tx-done project e a caps x y ran in
      (
        ap (any (same_agent a)) (sym kept) ∙ free,
        ap (λ (c : Catalog). c.agent_types) same ∙ added ∙ ap (λ l. l ++ a ∷ []) kept,
      )

  any-append_last :
      (a b : AgentType) (rows : List AgentType)
      → same_agent b a ≡ true
      → any (same_agent b) (rows ++ a ∷ []) ≡ true
  any-append_last a b [] h = ground arith
  any-append_last a b (x ∷ rows) h = let rest = any-append_last a b rows h in ground arith

  gone :
      (id : String) (es : List CatalogEntry)
      → any (has_entry_id id) (filter (λ e. not (has_entry_id id e)) es) ≡ false
  gone id [] = refl
  gone id (e ∷ es) = let rest = gone id es in ground arith

  delete-done :
      (id : String) (w v : World Catalog)
      → delete id w ≡ done tt v
      → any (has_entry_id id) v.tables.entries ≡ false
  unfolding delete
  delete-done id w v h =
      let (t, same) = statement-done _ w tt v (context-done _ _ w v tt h) in
      ap (λ (c : Catalog). any (has_entry_id id) c.entries) (sym same) ∙ gone id w.tables.entries

  -- After a Create and a Delete of the entry that both succeed, the entry is gone, and yet no Create of
  -- an agent type of the same key and version succeeds.
  pub create-delete_refused :
      (with_parties : Bool) (e next : CatalogEntry) (a b : AgentType) (caps caps' : List C)
      (w v x y : World Catalog)
      → create to_row with_parties e (some (a, caps)) w ≡ done tt v
      → delete e.id v ≡ done tt x
      → b.agent_key ≡ a.agent_key
      → b.version ≡ a.version
      → (any (has_entry_id e.id) x.tables.entries ≡ false)
        × ¬ (create to_row with_parties next (some (b, caps')) x ≡ done tt y)
  create-delete_refused with_parties e next a b caps caps' w v x y created deleted key version = (
    delete-done e.id v x deleted,
    λ again.
        let (free, added) = create-done with_parties e a caps w v created in
        let kept : x.tables.agent_types ≡ w.tables.agent_types ++ a ∷ [] =
          rw deleted at ((delete-Keeps (w.tables.agent_types ++ a ∷ []) e.id).after v added) in
        let (missing, rest) = create-done with_parties next b caps' x y again in
        let same_key : (a.agent_key == b.agent_key) ≡ true =
          (eq_iff a.agent_key b.agent_key).1 (sym key) in
        let same_version : (a.version == b.version) ≡ true =
          (eq_iff a.version b.version).1 (sym version) in
        let same : same_agent b a ≡ true = ground arith in
        let there = ap (any (same_agent b)) kept ∙ any-append_last a b w.tables.agent_types same in
        let clash : true ≡ false = sym there ∙ missing in cc,
  )
