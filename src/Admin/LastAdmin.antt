-- ===== src/Admin/LastAdmin.antt =====
-- Deletion of users over the API never takes the last active administrator.
use agentlens.Common.{
  suc, ◌≤◌, String, ◌≡◌, refl, sym, subst, ap, ◌∙◌, inl, inr, Bool, true, false, not, ◌&&◌, Option,
  none, some, List, [], ◌∷◌, length, filter, find?, any, leb, Bool-cases, has, some_inj, arith,
  ◌==◌, eq_iff, filter_empty_iff,
}
use agentlens.Http.{answer}
use agentlens.Sql.{World, Outcome, done, raised, world}
use agentlens.Sql.Laws.{statement-done, context-done, bind-done}
use agentlens.Sql.Keeps.{
  Keeps, Keeps-return, Keeps-context, Keeps-bind, Keeps-query, answer-keeps, execute_keeps,
}
use agentlens.Tables.{Role, User, Tables}
use agentlens.Auth.Users.{has_user_id, get_user_by_id, delete_user}
use agentlens.Admin.Roles.{has_role_id}
use agentlens.Admin.Users.{
  insert_by_username, order_users, list_users, preload_role, get_user_with_role, is_admin_role,
  counts_as, remove_user, delete_admin, delete_user_found, delete_user_handler,
}

module _ {A : Type 0} (key : A → String) where
  abbrev pub Distinct : List A → Type 0
  Distinct [] = Unit
  Distinct (x ∷ xs) = (any (has key (key x)) xs ≡ false) × Distinct xs

  abbrev others : String → List A → List A
  others k xs = filter (λ x. not (has key k x)) xs

  others_all : (k : String) (xs : List A) → any (has key k) xs ≡ false → others k xs ≡ xs
  others_all k [] h = refl
  others_all k (x ∷ xs) h = ground (arith, others_all k xs)

  any-others :
      (k j : String) (xs : List A)
      → any (has key k) xs ≡ false
      → any (has key k) (others j xs) ≡ false
  any-others k j [] h = refl
  any-others k j (x ∷ xs) h = ground (arith, any-others k j xs)

  others-Distinct : (k : String) (xs : List A) → Distinct xs → Distinct (others k xs)
  others-Distinct k [] d = tt
  others-Distinct k (x ∷ xs) (fresh, d) = elim (Bool-cases (key x == k)) [
    | inl hit ↦ rw hit (others-Distinct k xs d)
    | inr miss ↦ rw miss (any-others (key x) k xs fresh, others-Distinct k xs d)
  ]

  same_key :
      (k : String) (x : A) (xs : List A)
      → (key x == k) ≡ true
      → any (has key (key x)) xs ≡ false
      → any (has key k) xs ≡ false
  same_key k x xs hit fresh =
      subst (λ j. any (has key j) xs ≡ false) ((eq_iff (key x) k).0 hit) fresh

  -- One key is that of one row at most.
  count-others :
      (p : A → Bool) (k : String) (xs : List A)
      → Distinct xs
      → length (filter p xs) ≤ suc (length (filter p (others k xs)))
  count-others p k [] d = omega arith
  count-others p k (x ∷ xs) (fresh, d) = elim (Bool-cases (key x == k)) [
    | inl hit ↦ rw hit (rw (others_all k xs (same_key k x xs hit fresh)) (ground arith))
    | inr miss ↦ rw miss (let rest = count-others p k xs d in ground arith)
  ]

  -- Where the row of the key fails a test, the rows that pass it stay.
  any-others_pass :
      (p : A → Bool) (k : String) (xs : List A) {a : A}
      → Distinct xs
      → find? (has key k) xs ≡ some a
      → p a ≡ false
      → any p xs ≡ true
      → any p (others k xs) ≡ true
  any-others_pass p k [] d h fails some_pass = cc
  any-others_pass p k (x ∷ xs) {a} (fresh, d) h fails some_pass = elim (Bool-cases (key x == k)) [
    | inl hit ↦
        let it : x ≡ a = some_inj (rw hit at h) in
        let fails_x : p x ≡ false = ap p it ∙ fails in
        rw hit (rw (others_all k xs (same_key k x xs hit fresh)) (rw fails_x at some_pass))
    | inr miss ↦ rw miss (elim (Bool-cases (p x)) [
      | inl pass ↦ rw pass refl
      | inr not_pass ↦
          rw not_pass (any-others_pass p k xs d (rw miss at h) fails (rw not_pass at some_pass))
    ])
  ]

count_insert :
    (p : User → Bool) (u : User) (us : List User)
    → length (filter p (insert_by_username u us)) ≡ length (filter p (u ∷ us))
count_insert p u [] = refl
count_insert p u (v ∷ us) = let rest = count_insert p u us in ground arith

count_order :
    (p : User → Bool) (us : List User) → length (filter p (order_users us)) ≡ length (filter p us)
count_order p [] = refl
count_order p (u ∷ us) =
    let rest = count_order p us in
    let here = count_insert p u (order_users us) in here ∙ (ground arith)

any-implies :
    {A : Type 0} (p q : A → Bool) (xs : List A)
    → ((x : A) → p x ≡ true → q x ≡ true)
    → any p xs ≡ true
    → any q xs ≡ true
any-implies p q [] h some_pass = some_pass
any-implies p q (x ∷ xs) h some_pass = elim (Bool-cases (p x)) [
  | inl pass ↦ rw (h x pass) refl
  | inr fails ↦ let rest = any-implies p q xs h (rw fails at some_pass) in ground arith
]

-- An active user whose role has the name admin.
abbrev pub is_active_admin : Tables → User → Bool
is_active_admin t u = is_admin_role (find? (has_role_id u.role_id) t.roles) && u.is_active

pub record HasAdmin (t : Tables) : Type 0 where
  pub distinct : Distinct (λ (u : User). u.id) t.users
  pub admin : any (is_active_admin t) t.users ≡ true

abbrev without : String → Tables → Tables
without id t = record t { users = filter (λ u. not (has_user_id id u)) t.users }

-- Another user of the role is counted.
keeps_other :
    (id : String) (t : Tables) (u : User)
    → HasAdmin t
    → is_admin_role (find? (has_role_id u.role_id) t.roles) ≡ true
    → leb (length (filter (counts_as u.role_id) (order_users t.users))) 1 ≡ false
    → HasAdmin (without id t)
keeps_other id t u h role counted = record {
  distinct = others-Distinct (λ (u : User). u.id) id t.users h.distinct;
  admin =
      let total = count_order (counts_as u.role_id) t.users in
      let left = count-others (λ (u : User). u.id) (counts_as u.role_id) id t.users h.distinct in
      any-implies (counts_as u.role_id) (is_active_admin t) _ is_admin
        ((filter_empty_iff (counts_as u.role_id) _).0 (ground arith));
}
  where
    is_admin : (v : User) → counts_as u.role_id v ≡ true → is_active_admin t v ≡ true
    is_admin v c =
        let (same, active) : ((v.role_id == u.role_id) ≡ true) × (v.is_active ≡ true) =
          ground arith in
        subst (λ r. (is_admin_role (find? (has_role_id r) t.roles) && v.is_active) ≡ true)
          (sym ((eq_iff v.role_id u.role_id).0 same)) (rw role (rw active refl))

-- The removed user is no administrator.
keeps_plain :
    (id : String) (t : Tables) (u : User)
    → HasAdmin t
    → find? (has_user_id id) t.users ≡ some u
    → is_admin_role (find? (has_role_id u.role_id) t.roles) ≡ false
    → HasAdmin (without id t)
keeps_plain id t u h found role = record {
  distinct = others-Distinct (λ (u : User). u.id) id t.users h.distinct;
  admin =
      any-others_pass (λ (u : User). u.id) (is_active_admin t) id t.users h.distinct found
        (rw role refl) h.admin;
}

answered :
    (o : Outcome Tables (Unit {0})) (text : String)
    → HasAdmin (world o).tables
    → HasAdmin (answer 500 text 204 o).1.tables
answered (done a w) text p = p
answered (raised e w) text p = p

remove_user_keeps :
    (id : String) (w : World Tables)
    → HasAdmin w.tables
    → HasAdmin (without id w.tables)
    → HasAdmin (remove_user id w).1.tables
unfolding delete_user
remove_user_keeps id w p q =
    answered (delete_user id w) "failed to delete user"
      (execute_keeps HasAdmin "deleting user" (without id) w p q)

list_users-done :
    (us : List User) (w v : World Tables)
    → list_users 0 0 w ≡ done us v
    → (order_users w.tables.users ≡ us) × (w.tables ≡ v.tables)
unfolding list_users
list_users-done us w v h = statement-done _ w us v (context-done _ _ w v us h)

list_users-Keeps : Keeps HasAdmin (list_users 0 0)
unfolding list_users
list_users-Keeps = Keeps-context _ (Keeps-query _)

delete_admin_keeps :
    (id : String) (u : User) (w : World Tables)
    → HasAdmin w.tables
    → is_admin_role (find? (has_role_id u.role_id) w.tables.roles) ≡ true
    → HasAdmin (delete_admin u id (list_users 0 0 w)).1.tables
delete_admin_keeps id u w p role =
    answer-keeps (list_users 0 0) (delete_admin u id) w list_users-Keeps listed (λ e v q. q) p
  where
    listed :
        (us : List User) (v : World Tables)
        → list_users 0 0 w ≡ done us v
        → HasAdmin v.tables
        → HasAdmin (delete_admin u id (done us v)).1.tables
    listed us v h q = elim (Bool-cases (leb (length (filter (counts_as u.role_id) us)) 1)) [
      | inl last ↦ rw last q
      | inr more ↦
          let (read, same) = list_users-done us w v h in
          rw more (
            remove_user_keeps id v q (
              keeps_other id v.tables u q
                (subst (λ t. is_admin_role (find? (has_role_id u.role_id) t.roles) ≡ true) same
                  role)
                (subst
                  (λ t. leb (length (filter (counts_as u.role_id) (order_users t.users))) 1 ≡ false)
                  same
                  (subst (λ l. leb (length (filter (counts_as u.role_id) l)) 1 ≡ false) (sym read)
                    more))))
    ]

get_user_with_role-Keeps : (id : String) → Keeps HasAdmin (get_user_with_role id)
unfolding get_user_with_role get_user_by_id
get_user_with_role-Keeps id = Keeps-bind (Keeps-context _ (Keeps-query _)) preloaded
  where
    preloaded : (o : Option User) → Keeps HasAdmin (preload_role o)
    preloaded none = Keeps-return _
    preloaded (some u) = Keeps-context _ (Keeps-query _)

preload_role-done :
    (o : Option User) (u : User) (role : Option Role) (w v : World Tables)
    → preload_role o w ≡ done (some (u, role)) v
    → (o ≡ some u) × ((find? (has_role_id u.role_id) w.tables.roles ≡ role) × (w.tables ≡ v.tables))
preload_role-done none u role w v h = cc
preload_role-done (some x) u role w v h =
    let (read, same) = statement-done _ w (some (u, role)) v (context-done _ _ w v _ h) in
    let both = some_inj read in
    let it : x ≡ u = ap (λ p. p.0) both in
    (
      ap some it,
      (
        subst (λ y. find? (has_role_id y.role_id) w.tables.roles ≡ role) it (ap (λ p. p.1) both),
        same,
      ),
    )

get_user_with_role-done :
    (id : String) (u : User) (role : Option Role) (w v : World Tables)
    → get_user_with_role id w ≡ done (some (u, role)) v
    → (find? (has_user_id id) v.tables.users ≡ some u)
      × (find? (has_role_id u.role_id) v.tables.roles ≡ role)
unfolding get_user_with_role get_user_by_id
get_user_with_role-done id u role w v h =
    let (o, x, first, second) = bind-done _ preload_role w v _ h in
    let (found, same) = statement-done _ w o x (context-done _ _ w x o first) in
    let (it, (read, after)) = preload_role-done o u role x v second in
    (
      subst (λ t. find? (has_user_id id) t.users ≡ some u) (same ∙ after) (found ∙ it),
      subst (λ t. find? (has_role_id u.role_id) t.roles ≡ role) after read,
    )

-- Where the identifiers of users are distinct and some active user has a role named admin, that is
-- so after a request to delete a user, whichever statements fail.
pub delete_user_handler-HasAdmin :
    (caller id : String) (w : World Tables)
    → HasAdmin w.tables
    → HasAdmin (delete_user_handler caller id w).1.tables
unfolding delete_user_handler
delete_user_handler-HasAdmin caller id w p = elim (Bool-cases (id == caller)) [
  | inl own ↦ rw own p
  | inr other ↦ rw other (
      answer-keeps (get_user_with_role id) (delete_user_found id) w (get_user_with_role-Keeps id)
        checked (λ e v q. q) p)
]
  where
    checked :
        (o : Option (User × Option Role)) (v : World Tables)
        → get_user_with_role id w ≡ done o v
        → HasAdmin v.tables
        → HasAdmin (delete_user_found id (done o v)).1.tables
    checked none v h q = q
    checked (some (u, role)) v h q =
        let (found, read) = get_user_with_role-done id u role w v h in
        elim (Bool-cases (is_admin_role role)) [
          | inl admin ↦ rw admin (delete_admin_keeps id u v q (ap is_admin_role read ∙ admin))
          | inr plain ↦ rw plain (
              remove_user_keeps id v q
                (keeps_plain id v.tables u q found (ap is_admin_role read ∙ plain)))
        ]
