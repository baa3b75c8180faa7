-- ===== src/Catalog/Assigned.antt =====
-- Every entry of the catalog belongs to the default project.
use agentlens.Common.{
  String, ◌≡◌, refl, sym, subst, ap, ◌∙◌, ◌⊎◌, inl, inr, Bool, true, false, not, ◌&&◌, Option, none,
  some, List, [], ◌∷◌, ◌++◌, any, filter, Bool-cases, Member, Member-of_append, Member-of_filter,
  some_inj, eq_refl, if◌then◌else◌, ◌==◌, arith,
}
use agentlens.Sql.{
  World, Outcome, done, raised, world, M, ◌>>=◌, return, context, attempt, transaction,
}
use agentlens.Sql.Laws.{attempt-done, statement-done, context-done, bind-done}
use agentlens.Sql.Keeps.{
  Keeps, Keeps-return, Keeps-raise, Keeps-context, Keeps-bind, Keeps-query, Keeps-execute,
  Keeps-attempt, Keeps-transaction, bind-keeps,
}
use agentlens.Tables.{Party, Tables, CatalogProjectMembership, project_kind}
use agentlens.Party.Projects.{get_default_project, default_found, first_by_id, is_membership}
use agentlens.Catalog.{
  AgentType, CapabilityRow, CatalogEntry, Catalog, on_parties, put_back, insert_agent_type,
  same_agent, insert_entry, has_entry_id, to_rows, store_rows, insert_capabilities,
  with_capabilities, append_rows, insert_membership, assign_default, create_tx, create, delete,
}

abbrev pub default_of : Tables → Option Party
default_of t = first_by_id (filter (λ p. p.kind == project_kind && p.is_system) t.parties)

abbrev pub in_project : Tables → String → String → Bool
in_project t entry project = any (is_membership entry project) t.memberships

pub record IsAssigned (p : Party) (c : Catalog) : Type 0 where
  pub named : (p.id == "") ≡ false
  pub default : default_of c.parties ≡ some p
  pub member : (e : CatalogEntry) → Member e c.entries → in_project c.parties e.id p.id ≡ true

module _ (p : Party) where
  abbrev Kept : Catalog → Type 0
  Kept = IsAssigned p

  same_rows : (c d : Catalog) → d.entries ≡ c.entries → d.parties ≡ c.parties → Kept c → Kept d
  same_rows c d entries parties h = record {
    named = h.named;
    default = ap default_of parties ∙ h.default;
    member =
        λ e m. ap (λ t. in_project t e.id p.id) parties ∙ h.member e (subst (Member e) entries m);
  }

  insert_agent_type-Keeps :
      (a : AgentType) → Keeps Kept (context "creating agent_type" (attempt (insert_agent_type a)))
  insert_agent_type-Keeps a = Keeps-context _ (Keeps-attempt _ inserted)
    where
      inserted :
          (c d : Catalog) (u : Unit {0}) → Kept c → insert_agent_type a c ≡ some (u, d) → Kept d
      inserted c d u h e = elim (Bool-cases (any (same_agent a) c.agent_types)) [
        | inl taken ↦ let clash = rw taken at e in cc
        | inr free ↦
            let same = ap (λ q. q.1) (some_inj (rw free at e)) in
            same_rows c d (ap (λ (x : Catalog). x.entries) (sym same))
              (ap (λ (x : Catalog). x.parties) (sym same)) h
      ]

  store_rows-Keeps :
      {C : Type 0} (to_row : String → C → Option CapabilityRow) (text : String)
      (o : Option (List CapabilityRow))
      → Keeps Kept (store_rows to_row text o)
  store_rows-Keeps to_row text none = Keeps-raise _
  store_rows-Keeps to_row text (some []) = Keeps-return _
  store_rows-Keeps to_row text (some (r ∷ rs)) = Keeps-context _ (Keeps-attempt _ inserted)
    where
      stored :
          (c d : Catalog) (u : Unit {0}) (o : Option (List CapabilityRow))
          → Kept c
          → with_capabilities c o ≡ some (u, d)
          → Kept d
      stored c d u none h e = cc
      stored c d u (some rows) h e =
          let same = ap (λ q. q.1) (some_inj e) in
          same_rows c d (ap (λ (x : Catalog). x.entries) (sym same))
            (ap (λ (x : Catalog). x.parties) (sym same)) h

      inserted :
          (c d : Catalog) (u : Unit {0})
          → Kept c
          → insert_capabilities (r ∷ rs) c ≡ some (u, d)
          → Kept d
      inserted c d u h e = stored c d u (append_rows c.capabilities (r ∷ rs)) h e

  delete-Keeps : (id : String) → Keeps Kept (delete id)
  unfolding delete
  delete-Keeps id = Keeps-context _ (
      Keeps-execute _ λ c h. record {
        named = h.named;
        default = h.default;
        member =
            λ e m. h.member e ((Member-of_filter (λ x. not (has_entry_id id x)) c.entries e m).0);
      })

  -- The new entry and its membership are stored together.
  insert_entry-done :
      (e : CatalogEntry) (c d : Catalog) (u : Unit {0})
      → insert_entry e c ≡ some (u, d)
      → (d.entries ≡ c.entries ++ e ∷ []) × (d.parties ≡ c.parties)
  insert_entry-done e c d u h = elim (Bool-cases (any (has_entry_id e.id) c.entries)) [
    | inl taken ↦ let clash = rw taken at h in cc
    | inr free ↦
        let same = ap (λ q. q.1) (some_inj (rw free at h)) in
        (ap (λ (x : Catalog). x.entries) (sym same), ap (λ (x : Catalog). x.parties) (sym same))
  ]

  any-append_left :
      (f : CatalogProjectMembership → Bool) (ms : List CatalogProjectMembership)
      (m : CatalogProjectMembership)
      → any f ms ≡ true
      → any f (ms ++ m ∷ []) ≡ true
  any-append_left f [] m h = cc
  any-append_left f (x ∷ ms) m h = elim (Bool-cases (f x)) [
    | inl pass ↦ rw pass refl
    | inr fails ↦ rw fails (any-append_left f ms m (rw fails at h))
  ]

  any-append_right :
      (f : CatalogProjectMembership → Bool) (ms : List CatalogProjectMembership)
      (m : CatalogProjectMembership)
      → f m ≡ true
      → any f (ms ++ m ∷ []) ≡ true
  any-append_right f [] m h = rw h refl
  any-append_right f (x ∷ ms) m h = let rest = any-append_right f ms m h in ground arith

  membership-done :
      (e : CatalogEntry) (c d x : Catalog) (u : Unit {0})
      → Kept c
      → (x.entries ≡ c.entries ++ e ∷ []) × (x.parties ≡ c.parties)
      → insert_membership e.id p.id x ≡ some (u, d)
      → Kept d
  membership-done e c d x u h (entries, parties) made =
      elim (Bool-cases (any (is_membership e.id p.id) x.parties.memberships)) [
        | inl taken ↦ let clash = rw taken at made in cc
        | inr free ↦ subst Kept (ap (λ q. q.1) (some_inj (rw free at made))) (record {
          named = h.named;
          default = ap default_of parties ∙ h.default;
          member =
              λ f m. member f (Member-of_append f c.entries (e ∷ []) (subst (Member f) entries m));
        })
      ]
    where
      row : CatalogProjectMembership
      row = record { catalog_entry_id = e.id; project_party_id = p.id }

      itself : is_membership e.id p.id row ≡ true
      itself = rw (eq_refl e.id) (eq_refl p.id)

      member :
          (f : CatalogEntry)
          → Member f c.entries ⊎ Member f (e ∷ [])
          → any (is_membership f.id p.id) (x.parties.memberships ++ row ∷ []) ≡ true
      member f (inl m) =
          any-append_left (is_membership f.id p.id) x.parties.memberships row
            (ap (λ t. in_project t f.id p.id) parties ∙ h.member f m)
      member f (inr (inl same)) =
          subst
            (λ (g : CatalogEntry).
              any (is_membership g.id p.id) (x.parties.memberships ++ row ∷ []) ≡ true)
            same (any-append_right (is_membership e.id p.id) x.parties.memberships row itself)
      member f (inr (inr never)) = elim never [ ]

  module _ {C : Type 0} (to_row : String → C → Option CapabilityRow) where
    create_tx-done :
        (e : CatalogEntry) (a : AgentType) (caps : List C) (w v : World Catalog) (u : Unit {0})
        → Kept w.tables
        → create_tx to_row p.id e a caps w ≡ done u v
        → Kept v.tables
    create_tx-done e a caps w v u h ran =
        let (u3, x3, third, last) =
          bind-done _ (λ (t : Unit {0}). assign_default to_row e.id p.id) w v u ran in
        let stored_entry = record e { agent_type_id = a.id } in
        let (u2, x2, second, entry) =
          bind-done _
            (λ (t : Unit {0}).
              context "inserting catalog entry" (attempt (insert_entry stored_entry)))
            w x3 u3 third in
        let (u1, x1, first, stored) =
          bind-done _
            (λ (t : Unit {0}).
              store_rows to_row "inserting capabilities" (to_rows to_row a.id caps))
            w x2 u2 second in
        let kept1 : Kept x1.tables = rw first at ((insert_agent_type-Keeps a).after w h) in
        let kept2 : Kept x2.tables = rw stored at (
          (store_rows-Keeps to_row "inserting capabilities" (to_rows to_row a.id caps)).after x1
            kept1) in
        let grown =
          insert_entry-done stored_entry x2.tables x3.tables u3
            (attempt-done (insert_entry stored_entry) x2 u3 x3 (context-done _ _ x2 x3 u3 entry)) in
        let assigned : context "assigning entry to default project"
              (attempt (insert_membership e.id p.id)) x3
            ≡ done u v =
          if_false_run (p.id == "") (return tt)
            (context "assigning entry to default project" (attempt (insert_membership e.id p.id)))
            h.named last in
        membership-done stored_entry x2.tables v.tables x3.tables u kept2 grown
          (attempt-done (insert_membership e.id p.id) x3 u v (context-done _ _ x3 v u assigned))
      where
        if_false_run :
            (b : Bool) (m n : M Catalog (Unit {0})) {x v : World Catalog} {u : Unit {0}}
            → b ≡ false
            → (if b then m else n) x ≡ done u v
            → n x ≡ done u v
        if_false_run b m n {x} {v} {u} e k = subst (λ c. (if c then m else n) x ≡ done u v) e k

    default_id : M Catalog String
    default_id =
        context "resolving default project" (on_parties get_default_project) >>= (λ q. return q.id)

    default_project-done :
        (q : Party) (t : World Tables) (v : World Tables)
        → get_default_project t ≡ done q v
        → (default_of t.tables ≡ some q) × (v.tables ≡ t.tables)
    unfolding get_default_project
    default_project-done q t v h =
        let (o, x, first, second) = bind-done _ default_found t v q h in
        let (read, same) = statement-done _ t o x (context-done _ _ t x o first) in
        let (it, after) = found o x second in (read ∙ it, sym (same ∙ after))
      where
        found :
            (o : Option Party) (x : World Tables)
            → default_found o x ≡ done q v
            → (o ≡ some q) × (x.tables ≡ v.tables)
        found none x k = cc
        found (some r) x k = (ground arith, ground arith)

    put_back-done :
        (c : Catalog) (o : Outcome Tables Party) (q : Party) (v : World Catalog)
        → put_back c o ≡ done q v
        → (t : World Tables) × ((o ≡ done q t) × (v.tables ≡ record c { parties = t.tables }))
    put_back-done c (done r t) q v h = (t, (ground arith, ground arith))
    put_back-done c (raised e t) q v h = cc

    default_id-done :
        (project : String) (w v : World Catalog)
        → default_id w ≡ done project v
        → default_of w.tables.parties ≡ some p
        → project ≡ p.id
    unfolding default_id on_parties
    default_id-done project w v h known =
        let (q, x, first, second) = bind-done _ (λ (q : Party). return q.id) w v project h in
        let (t, (ran, same)) = put_back-done w.tables _ q x (context-done _ _ w x q first) in
        let (it, kept) = default_project-done q _ t ran in
        let one : q ≡ p = some_inj (sym it ∙ known) in
        let back : q.id ≡ project = ground arith in sym back ∙ ap (λ (r : Party). r.id) one

    default_project-Keeps : {P : Tables → Type 0} → Keeps P get_default_project
    unfolding get_default_project
    default_project-Keeps {P} = Keeps-bind (Keeps-context _ (Keeps-query _)) found
      where
        found : (o : Option Party) → Keeps P (default_found o)
        found none = Keeps-raise _
        found (some q) = Keeps-return q

    default_id-Keeps : Keeps Kept default_id
    unfolding default_id on_parties
    default_id-Keeps =
        Keeps-bind (Keeps-context _ (record { after = λ w h. parties w h }))
          (λ q. Keeps-return q.id)
      where
        go :
            (c : Catalog) (o : Outcome Tables Party)
            → (world o).tables ≡ c.parties
            → Kept c
            → Kept (world (put_back c o)).tables
        go c (done q t) same h = same_rows c (record c { parties = t.tables }) refl same h
        go c (raised e t) same h = same_rows c (record c { parties = t.tables }) refl same h

        parties :
            (w : World Catalog)
            → Kept w.tables
            → Kept (world (on_parties get_default_project w)).tables
        parties w h =
            go w.tables _
              ((default_project-Keeps {P = λ (t : Tables). t ≡ w.tables.parties}).after
                (record { tables = w.tables.parties; faults = w.faults }) refl)
              h

    create-Keeps :
        (e : CatalogEntry) (agent : Option (AgentType × List C))
        → Keeps Kept (create to_row true e agent)
    unfolding create default_id
    create-Keeps e none = Keeps-raise _
    create-Keeps e (some (a, caps)) = record {
      after = λ w h.
          bind-keeps default_id (λ project. transaction (create_tx to_row project e a caps)) w
            default_id-Keeps
            (λ project v ran kept.
              subst (λ k. Kept (world (transaction (create_tx to_row k e a caps) v)).tables)
                (sym (default_id-done project w v ran h.default))
                ((Keeps-transaction {m = create_tx to_row p.id e a caps}
                    (λ x y u k done_tx. create_tx-done e a caps x y u k done_tx)).after
                  v kept))
            h;
    }

-- A call that adds or removes entries.
pub data Write (C : Type 0) : Type 0 where
  created : CatalogEntry → Option (AgentType × List C) → Write C
  deleted : (id : String) → Write C

module _ {C : Type 0} (to_row : String → C → Option CapabilityRow) where
  abbrev pub write : Write C → M Catalog (Unit {0})
  write (created e agent) = create to_row true e agent
  write (deleted id) = delete id

  unfoldable pub write_all : List (Write C) → World Catalog → World Catalog
  write_all [] w = w
  write_all (x ∷ xs) w = write_all xs (world (write x w))

  -- Whatever entries are created, with a wired PartyStore, and deleted in whatever order, and whichever
  -- statements fail: where each entry is assigned to the default project, each entry is afterwards.
  pub write_all-IsAssigned :
      (p : Party) (xs : List (Write C)) (w : World Catalog)
      → IsAssigned p w.tables
      → IsAssigned p (write_all xs w).tables
  unfolding write_all
  write_all-IsAssigned p [] w h = h
  write_all-IsAssigned p (created e agent ∷ xs) w h =
      write_all-IsAssigned p xs _ ((create-Keeps p to_row e agent).after w h)
  write_all-IsAssigned p (deleted id ∷ xs) w h =
      write_all-IsAssigned p xs _ ((delete-Keeps p id).after w h)
