-- ===== src/Auth/FirstUser.antt =====
-- The first administrator is made in an empty table only.
use agentlens.Common.{
  ℕ, ◌<◌, String, ◌≡◌, refl, sym, subst, ap, ◌∙◌, ◌⊎◌, inl, inr, false, ◌||◌, List, [], ◌∷◌, ◌++◌,
  length, any, ltb, Bool-cases, some_inj, Text, ◌==◌, arith,
}
use agentlens.Sql.{Error, World, Outcome, done, raised, follow, ◌>>=◌, return, context}
use agentlens.Sql.Laws.{
  attempt-done, attempt-raised, statement-done, context-done, context-raised, run-cases,
}
use agentlens.Tables.{User, Tables}
use agentlens.Auth.Users.{insert_user, create_user, count_users}
use agentlens.Auth.Hashing.{Hashed, hashed, rejected}
use agentlens.Auth.Bootstrap.{
  Drawn, got, refused, Random, generate_password, admin_user, create_admin, with_password,
  bootstrap_counted, bootstrap_admin,
}

module _ {R : Type 0} (random : Random R) (hash : Text → Hashed) (fresh : String) where
  -- What a bootstrap may leave of the tables.
  abbrev pub IsBootstrap : R → Tables → Outcome Tables Text → Type 0
  IsBootstrap r t (raised e v) = v.tables ≡ t
  IsBootstrap r t (done password v) =
      ((0 < length t.users) × ((v.tables ≡ t) × (password ≡ [])))
      ⊎ ((t.users ≡ [])
          × (((generate_password random r).0 ≡ got password)
              × ((h : String) × ((hash password ≡ hashed h)
                    × (v.tables.users ≡ admin_user fresh h ∷ [])))))

  create_admin-IsBootstrap :
      (r : R) (password : Text) (o : Hashed) (w : World Tables)
      → (generate_password random r).0 ≡ got password
      → hash password ≡ o
      → w.tables.users ≡ []
      → IsBootstrap r w.tables (create_admin random hash fresh password o w)
  unfolding ◌>>=◌ create_user
  create_admin-IsBootstrap r password (rejected err) w drew e empty = refl
  create_admin-IsBootstrap r password (hashed h) w drew e empty =
      run-cases (IsBootstrap r w.tables) (context "creating admin user" (create_user u))
        (λ o. follow o (λ x. return password)) w
        (λ x v ran.
          let stored =
            attempt-done (insert_user u) w x v
              (context-done _ _ w v x (context-done _ _ w v x ran)) in
          let free : any (λ y. y.id == u.id || y.username == u.username) w.tables.users ≡ false =
            ap (any (λ y. y.id == u.id || y.username == u.username)) empty in
          inr (
            empty,
            (
              drew,
              (
                h,
                (
                  e,
                  ap (λ (t : Tables). t.users) (sym (ap (λ p. p.1) (some_inj (rw free at stored))))
                      ∙ ap (λ l. l ++ u ∷ []) empty,
                ),
              ),
            ),
          ))
        λ x v ran.
          let (cause, failed) = context-raised _ _ w v x ran in
          let (inner, refused_row) = context-raised _ _ w v cause failed in
          attempt-raised (insert_user u) w inner v refused_row
    where
      u : User
      u = admin_user fresh h

  with_password-IsBootstrap :
      (r : R) (o : Drawn Text) (w : World Tables)
      → (generate_password random r).0 ≡ o
      → w.tables.users ≡ []
      → IsBootstrap r w.tables (with_password random hash fresh o w)
  with_password-IsBootstrap r (refused err) w drew empty = refl
  with_password-IsBootstrap r (got password) w drew empty =
      create_admin-IsBootstrap r password (hash password) w drew refl empty

  no_users : (us : List User) → ltb 0 (length us) ≡ false → us ≡ []
  no_users [] h = refl
  no_users (u ∷ us) h = ground arith

  count_users-done :
      (n : ℕ) (w v : World Tables)
      → context "counting users" count_users w ≡ done n v
      → (length w.tables.users ≡ n) × (w.tables ≡ v.tables)
  unfolding count_users
  count_users-done n w v h =
      statement-done _ w n v (context-done _ _ w v n (context-done _ _ w v n h))

  count_users-raised :
      (e : Error) (w v : World Tables)
      → context "counting users" count_users w ≡ raised e v
      → v.tables ≡ w.tables
  unfolding count_users
  count_users-raised e w v h =
      let (cause, failed) = context-raised _ _ w v e h in
      let (inner, ran) = context-raised _ _ w v cause failed in attempt-raised _ w inner v ran

  -- Whichever statements fail: a BootstrapAdmin that fails leaves the tables as they were; one that
  -- returns found a user and changed nothing, with an empty password, or found no user, generated the
  -- password that it returns, and left the active administrator with its hash as the only user.
  pub bootstrap_admin-IsBootstrap :
      (r : R) (w : World Tables) → IsBootstrap r w.tables (bootstrap_admin random hash fresh r w)
  unfolding bootstrap_admin ◌>>=◌
  bootstrap_admin-IsBootstrap r w =
      run-cases (IsBootstrap r w.tables) (context "counting users" count_users)
        (λ o. follow o (bootstrap_counted random hash fresh r)) w counted
        (λ e v h. count_users-raised e w v h)
    where
      counted :
          (n : ℕ) (v : World Tables)
          → context "counting users" count_users w ≡ done n v
          → IsBootstrap r w.tables (bootstrap_counted random hash fresh r n v)
      counted n v h =
          let (total, same) = count_users-done n w v h in
          elim (Bool-cases (ltb 0 n)) [
            | inl there ↦ rw there (inl (ground arith, (sym same, refl)))
            | inr none_there ↦ rw none_there (
                subst
                  (λ t.
                    IsBootstrap r t
                      (with_password random hash fresh (generate_password random r).0 v))
                  (sym same)
                  (with_password-IsBootstrap r _ v refl (
                    no_users v.tables.users (
                      subst (λ t. ltb 0 (length t.users) ≡ false) same
                        (ap (ltb 0) total ∙ none_there)))))
          ]
