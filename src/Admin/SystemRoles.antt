-- ===== src/Admin/SystemRoles.antt =====
-- A system role outlives every request of the role API.
use agentlens.Common.{
  String, ◌≡◌, refl, sym, subst, ap, ◌∙◌, ◌⊎◌, inl, inr, true, false, Option, none, some, List, [],
  ◌∷◌, ◌++◌, find?, any, update, ◌||◌, Bool-cases, some_inj, find-key, find-append,
  find-filter_other, find-update, find-update_other, if_true, if_false, if◌then◌else◌, ◌==◌, eq_iff,
}
use agentlens.Http.{answer}
use agentlens.Sql.{World, done, world, context, query}
use agentlens.Sql.Laws.{statement-done, context-done}
use agentlens.Sql.Keeps.{
  Keeps, Keeps-raise, Keeps-context, Keeps-query, Keeps-execute, Keeps-attempt, Keeps-test,
  bind-keeps, answer-keeps,
}
use agentlens.Tables.{Role, Tables}
use agentlens.Auth.Users.{get_role_by_id}
use agentlens.Admin.Roles.{
  has_role_id, insert_role, create_role, name_taken, save_role, update_role, drop_role,
  delete_role_found, delete_role, CreateRoleRequest, UpdateRoleRequest, changed_role, new_role,
  get_role_by_name, create_unnamed, role_created, create_role_handler, update_role_found,
  role_updated, update_role_handler, delete_role_of, delete_role_handler,
}

-- The row that the identifier finds is a system role.
abbrev pub IsSystemRole : String → Tables → Type 0
IsSystemRole id t = (r : Role) × ((find? (has_role_id id) t.roles ≡ some r) × (r.is_system ≡ true))

get_role_by_id-done :
    (id : String) (o : Option Role) (w v : World Tables)
    → get_role_by_id id w ≡ done o v
    → (find? (has_role_id id) w.tables.roles ≡ o) × (w.tables ≡ v.tables)
unfolding get_role_by_id
get_role_by_id-done id o w v h = statement-done _ w o v (context-done _ _ w v o h)

module _ (id : String) where
  abbrev Kept : Tables → Type 0
  Kept = IsSystemRole id

  insert_role_keeps :
      (r : Role) (t t' : Tables) (u : Unit {0}) → Kept t → insert_role r t ≡ some (u, t') → Kept t'
  insert_role_keeps r t t' u (s, (found, system)) h =
      elim (Bool-cases (any (λ s. s.id == r.id || s.name == r.name) t.roles)) [
        | inl taken ↦ let clash = rw taken at h in cc
        | inr free ↦
            let moved = ap (λ p. p.1) (some_inj (rw free at h)) in
            (
              s,
              (
                subst (λ x. find? (has_role_id id) x.roles ≡ some s) moved
                    (find-append (λ r. r.id) id t.roles (r ∷ []) found),
                system,
              ),
            )
      ]

  -- A saved row is that of the system role, or another row.
  save_role_keeps :
      (r : Role) (t t' : Tables) (u : Unit {0})
      → (r.id ≡ id → r.is_system ≡ true)
      → Kept t
      → save_role r t ≡ some (u, t')
      → Kept t'
  save_role_keeps r t t' u same (s, (found, system)) h = elim (Bool-cases (name_taken r t.roles)) [
    | inl taken ↦ let clash = rw taken at h in cc
    | inr free ↦
        let moved = ap (λ p. p.1) (some_inj (rw free at h)) in
        subst Kept moved
          (stored (Bool-cases (any (has_role_id r.id) t.roles)) (Bool-cases (r.id == id)))
  ]
    where
      stored :
          (any (has_role_id r.id) t.roles ≡ true) ⊎ (any (has_role_id r.id) t.roles ≡ false)
          → ((r.id == id) ≡ true) ⊎ ((r.id == id) ≡ false)
          → Kept (record t {
            roles =
                if any (has_role_id r.id) t.roles
                then update (has_role_id r.id) (λ _. r) t.roles
                else t.roles ++ r ∷ [];
          })
      stored (inl there) (inl hit) =
          let here : r.id ≡ id = (eq_iff r.id id).0 hit in
          (
            r,
            (
              ap (find? (has_role_id id)) (if_true _ _ there)
                  ∙ subst
                      (λ k.
                        find? (has_role_id k) (update (has_role_id r.id) (λ _. r) t.roles) ≡ some r)
                      here
                      (find-update (λ r. r.id) r.id (λ _. r) t.roles (λ x e. refl)
                        (subst (λ k. find? (has_role_id k) t.roles ≡ some s) (sym here) found)),
              same here,
            ),
          )
      stored (inl there) (inr miss) = (
        s,
        (
          ap (find? (has_role_id id)) (if_true _ _ there)
              ∙ find-update_other (λ r. r.id) id r.id (λ _. r) t.roles (λ x e. refl)
                  (λ e. let clash = (eq_iff r.id id).1 (sym e) in cc)
              ∙ found,
          system,
        ),
      )
      stored (inr missing) c = (
        s,
        (
          ap (find? (has_role_id id)) (if_false _ _ missing)
              ∙ find-append (λ r. r.id) id t.roles (r ∷ []) found,
          system,
        ),
      )

  create_role-Keeps : (r : Role) → Keeps Kept (create_role r)
  unfolding create_role
  create_role-Keeps r =
      Keeps-context _ (Keeps-attempt _ (λ t t' u p e. insert_role_keeps r t t' u p e))

  update_role-Keeps : (r : Role) → (r.id ≡ id → r.is_system ≡ true) → Keeps Kept (update_role r)
  unfolding update_role
  update_role-Keeps r same =
      Keeps-context _ (Keeps-attempt _ (λ t t' u p e. save_role_keeps r t t' u same p e))

  get_role_by_id-Keeps : (k : String) → Keeps Kept (get_role_by_id k)
  unfolding get_role_by_id
  get_role_by_id-Keeps k = Keeps-context _ (Keeps-query _)

  get_role_by_name-Keeps : (name : String) → Keeps Kept (get_role_by_name name)
  unfolding get_role_by_name
  get_role_by_name-Keeps name = Keeps-context _ (Keeps-query _)

  -- A row that another identifier finds, or a system role.
  found_system :
      (k : String) (t : Tables) (r : Role)
      → Kept t
      → find? (has_role_id k) t.roles ≡ some r
      → k ≡ id
      → r.is_system ≡ true
  found_system k t r (s, (found, system)) h e =
      ap (λ x. x.is_system) (some_inj (sym h ∙ ap (λ k. find? (has_role_id k) t.roles) e ∙ found))
      ∙ system

  drop_found-Keeps :
      (k : String) (r : Role)
      → (k ≡ id → r.is_system ≡ true)
      → Keeps Kept (delete_role_found k (some r))
  drop_found-Keeps k r system =
      Keeps-test r.is_system (λ e. Keeps-raise _)
        λ e. Keeps-context _ (
          Keeps-execute (drop_role k) λ t (s, (found, system_row)). (
            s,
            (
              find-filter_other (λ r. r.id) id k t.roles
                    (λ same. let clash = sym e ∙ system (sym same) in cc)
                  ∙ found,
              system_row,
            ),
          ))

  delete_role-Keeps : (k : String) → Keeps Kept (delete_role k)
  unfolding delete_role
  delete_role-Keeps k = record {
    after =
        λ w p. bind-keeps _ (delete_role_found k) w (Keeps-context _ (Keeps-query _)) (deleted w) p;
  }
    where
      deleted :
          (w : World Tables) (o : Option Role) (v : World Tables)
          → context "finding role for deletion" (query (λ t. find? (has_role_id k) t.roles)) w
            ≡ done o v
          → Kept v.tables
          → Kept (world (delete_role_found k o v)).tables
      deleted w none v h q = q
      deleted w (some r) v h q =
          let (read, same) = statement-done _ w (some r) v (context-done _ _ w v (some r) h) in
          (drop_found-Keeps k r (
              found_system k v.tables r q
                (ap (λ t. find? (has_role_id k) t.roles) (sym same) ∙ read))).after
            v q

-- A request to the role API, with the identifier that a creation draws.
pub data RoleRequest : Type 0 where
  create : (fresh : String) → Option CreateRoleRequest → RoleRequest
  change : (id : String) → Option UpdateRoleRequest → RoleRequest
  remove : (id : String) → RoleRequest

module _ (trim : String → String) where
  unfoldable pub serve : RoleRequest → World Tables → World Tables
  serve (create fresh body) w = (create_role_handler trim fresh body w).1
  serve (change id body) w = (update_role_handler id body w).1
  serve (remove id) w = (delete_role_handler id w).1

  unfoldable pub serve_all : List RoleRequest → World Tables → World Tables
  serve_all [] w = w
  serve_all (r ∷ rs) w = serve_all rs (serve r w)

  create_keeps :
      (id fresh : String) (body : Option CreateRoleRequest) (w : World Tables)
      → IsSystemRole id w.tables
      → IsSystemRole id (create_role_handler trim fresh body w).1.tables
  unfolding create_role_handler
  create_keeps id fresh none w p = p
  create_keeps id fresh (some req) w p = elim (Bool-cases (trim req.name == "")) [
    | inl empty ↦ rw empty p
    | inr named ↦ rw named (
        answer-keeps (get_role_by_name req.name) (create_unnamed fresh req) w
          (get_role_by_name-Keeps id req.name) checked (λ e v q. q) p)
  ]
    where
      checked :
          (o : Option Role) (v : World Tables)
          → get_role_by_name req.name w ≡ done o v
          → IsSystemRole id v.tables
          → IsSystemRole id (create_unnamed fresh req (done o v)).1.tables
      checked (some r) v h q = q
      checked none v h q =
          answer-keeps (create_role (new_role fresh req)) (role_created (new_role fresh req)) v
            (create_role-Keeps id (new_role fresh req)) (λ u x e q. q) (λ e x q. q) q

  change_keeps :
      (id k : String) (body : Option UpdateRoleRequest) (w : World Tables)
      → IsSystemRole id w.tables
      → IsSystemRole id (update_role_handler k body w).1.tables
  unfolding update_role_handler
  change_keeps id k none w p = p
  change_keeps id k (some req) w p =
      answer-keeps (get_role_by_id k) (update_role_found req) w (get_role_by_id-Keeps id k) checked
        (λ e v q. q) p
    where
      checked :
          (o : Option Role) (v : World Tables)
          → get_role_by_id k w ≡ done o v
          → IsSystemRole id v.tables
          → IsSystemRole id (update_role_found req (done o v)).1.tables
      checked none v h q = q
      checked (some r) v h q =
          let (read, same) = get_role_by_id-done k (some r) w v h in
          let named = find-key (λ r. r.id) k w.tables.roles read in
          answer-keeps (update_role (changed_role req r)) (role_updated (changed_role req r)) v
            (update_role-Keeps id (changed_role req r)
              (λ e. found_system id k w.tables r p read (sym named ∙ e)))
            (λ u x e q. q) (λ e x q. q) q

  remove_keeps :
      (id k : String) (w : World Tables)
      → IsSystemRole id w.tables
      → IsSystemRole id (delete_role_handler k w).1.tables
  unfolding delete_role_handler
  remove_keeps id k w p =
      answer-keeps (get_role_by_id k) (delete_role_of k) w (get_role_by_id-Keeps id k) checked
        (λ e v q. q) p
    where
      checked :
          (o : Option Role) (v : World Tables)
          → get_role_by_id k w ≡ done o v
          → IsSystemRole id v.tables
          → IsSystemRole id (delete_role_of k (done o v)).1.tables
      checked none v h q = q
      checked (some r) v h q = elim (Bool-cases r.is_system) [
        | inl system ↦ rw system q
        | inr plain ↦ rw plain (
            answer-keeps (delete_role k) (answer 500 "failed to delete role" 204) v
              (delete_role-Keeps id k) (λ u x e q. q) (λ e x q. q) q)
      ]

  -- Whatever requests the role API serves in whatever order, and whichever statements fail: a system
  -- role is still there under its identifier, and is still a system role.
  pub serve_all-IsSystemRole :
      (id : String) (rs : List RoleRequest) (w : World Tables)
      → IsSystemRole id w.tables
      → IsSystemRole id (serve_all rs w).tables
  unfolding serve_all serve
  serve_all-IsSystemRole id [] w p = p
  serve_all-IsSystemRole id (create fresh body ∷ rs) w p =
      serve_all-IsSystemRole id rs _ (create_keeps id fresh body w p)
  serve_all-IsSystemRole id (change k body ∷ rs) w p =
      serve_all-IsSystemRole id rs _ (change_keeps id k body w p)
  serve_all-IsSystemRole id (remove k ∷ rs) w p =
      serve_all-IsSystemRole id rs _ (remove_keeps id k w p)
