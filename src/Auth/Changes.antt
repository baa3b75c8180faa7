-- ===== src/Auth/Changes.antt =====
-- A password is changed by who knows the old one, to a strong one.
use agentlens.Common.{
  String, ◌≡◌, refl, sym, subst, ap, ◌∙◌, inl, inr, Bool, true, not, ◌||◌, Option, none, some,
  find?, any, update, Bool-cases, any-found, find-key, find-update, if_true, ◌==◌, Text, codes,
  arith,
}
use agentlens.Http.{Reply, error_response, sent, answer}
use agentlens.Sql.{Error, World, done, raised, context, execute}
use agentlens.Sql.Laws.{attempt-raised, statement-done, context-done, context-raised, run-cases}
use agentlens.Tables.{User, Tables}
use agentlens.Auth.Password.{Unicode, validate_password_strength}
use agentlens.Auth.Hashing.{Hashed, hashed, rejected}
use agentlens.Auth.Users.{has_user_id, get_user_by_id, save_user, update_user}
use agentlens.Auth.Sessions.{
  ChangePasswordRequest, save_password, strength_checked, change_found, change_password,
}

module _ (unicode : Unicode) (check : String → String → Bool) (hash : Text → Hashed)
    (caller : String) where
  -- What an answer of ChangePassword says of the tables before and after it.
  abbrev pub IsChange :
      Option ChangePasswordRequest → Tables → Reply (Unit {0}) × World Tables → Type 0
  IsChange body t (error_response status text, v) = v.tables ≡ t
  IsChange none t (sent status u, v) = ⊥
  IsChange (some req) t (sent status a, v) =
      (u : User) × (h : String) × (find? (has_user_id caller) t.users ≡ some u)
      × (check req.current_password u.password_hash ≡ true)
      × (validate_password_strength unicode (codes req.new_password) ≡ none)
      × (hash (codes req.new_password) ≡ hashed h)
      × (find? (has_user_id caller) v.tables.users ≡ some (record u { password_hash = h }))

  get_user-done :
      (o : Option User) (w v : World Tables)
      → get_user_by_id caller w ≡ done o v
      → (find? (has_user_id caller) w.tables.users ≡ o) × (w.tables ≡ v.tables)
  unfolding get_user_by_id
  get_user-done o w v h = statement-done _ w o v (context-done _ _ w v o h)

  get_user-raised :
      (e : Error) (w v : World Tables) → get_user_by_id caller w ≡ raised e v → v.tables ≡ w.tables
  unfolding get_user_by_id
  get_user-raised e w v h =
      let (cause, failed) = context-raised _ _ w v e h in attempt-raised _ w cause v failed

  -- The row that `Save` writes is found again.
  saved_row :
      (u : User) (h : String) (t : Tables)
      → find? (has_user_id caller) t.users ≡ some u
      → find? (has_user_id caller) (save_user (record u { password_hash = h }) t).users
        ≡ some (record u { password_hash = h })
  saved_row u h t found =
      let named : u.id ≡ caller = find-key (λ (x : User). x.id) caller t.users found in
      let there : any (has_user_id u.id) t.users ≡ true =
        subst (λ k. any (has_user_id k) t.users ≡ true) (sym named)
          (any-found (λ (x : User). x.id) caller t.users found) in
      ap (find? (has_user_id caller)) (if_true _ _ there)
      ∙ subst
          (λ k.
            find? (has_user_id caller)
              (update (has_user_id k) (λ _. record u { password_hash = h }) t.users)
            ≡ some (record u { password_hash = h }))
          (sym named)
          (find-update (λ (x : User). x.id) caller (λ _. record u { password_hash = h }) t.users
            (λ x e. named) found)

  save_password-IsChange :
      (req : ChangePasswordRequest) (u : User) (o : Hashed) (w : World Tables)
      → find? (has_user_id caller) w.tables.users ≡ some u
      → check req.current_password u.password_hash ≡ true
      → validate_password_strength unicode (codes req.new_password) ≡ none
      → hash (codes req.new_password) ≡ o
      → IsChange (some req) w.tables (save_password unicode check hash u o w)
  unfolding update_user
  save_password-IsChange req u (rejected err) w found right strong made = refl
  save_password-IsChange req u (hashed h) w found right strong made =
      run-cases (IsChange (some req) w.tables)
        (context "updating user" (execute (save_user (record u { password_hash = h }))))
        (answer 500 "failed to update password" 200) w
        (λ a v ran.
          let (tt_same, same) =
            statement-done (λ t. (tt, save_user (record u { password_hash = h }) t)) w a v
              (context-done _ _ w v a ran) in
          (
            u,
            h,
            found,
            right,
            strong,
            made,
            ap (λ (t : Tables). find? (has_user_id caller) t.users) (sym same)
                ∙ saved_row u h w.tables found,
          ))
        λ e v ran.
          let (cause, failed) = context-raised _ _ w v e ran in
          attempt-raised (λ t. some (tt, save_user (record u { password_hash = h }) t)) w cause v
            failed

  strength-IsChange :
      (req : ChangePasswordRequest) (u : User) (o : Option String) (w : World Tables)
      → find? (has_user_id caller) w.tables.users ≡ some u
      → check req.current_password u.password_hash ≡ true
      → validate_password_strength unicode (codes req.new_password) ≡ o
      → IsChange (some req) w.tables (strength_checked unicode check hash u req.new_password o w)
  strength-IsChange req u (some weak) w found right weakness = refl
  strength-IsChange req u none w found right strong =
      save_password-IsChange req u (hash (codes req.new_password)) w found right strong refl

  -- Whichever statements fail: a ChangePassword that is answered with an error leaves the tables as
  -- they were; one that is answered with success found the caller, whose hash the current password
  -- matches, was given a password that passes the check of passwords, and left the caller's row
  -- with the hash of it and otherwise as it was.
  pub change_password-IsChange :
      (body : Option ChangePasswordRequest) (w : World Tables)
      → IsChange body w.tables (change_password unicode check hash caller body w)
  unfolding change_password
  change_password-IsChange none w = refl
  change_password-IsChange (some req) w =
      elim (Bool-cases (req.current_password == "" || req.new_password == "")) [
        | inl missing ↦ rw missing refl
        | inr given ↦ rw given (
            run-cases (IsChange (some req) w.tables) (get_user_by_id caller)
              (change_found unicode check hash req) w found λ e v h. get_user-raised e w v h)
      ]
    where
      found :
          (o : Option User) (v : World Tables)
          → get_user_by_id caller w ≡ done o v
          → IsChange (some req) w.tables (change_found unicode check hash req (done o v))
      found none v h = sym ((get_user-done none w v h).1)
      found (some u) v h =
          let (read, same) = get_user-done (some u) w v h in
          elim (Bool-cases (not (check req.current_password u.password_hash))) [
            | inl wrong ↦ rw wrong (sym same)
            | inr right ↦ rw right (
                subst
                  (λ t. IsChange (some req) t (
                    strength_checked unicode check hash u req.new_password
                      (validate_password_strength unicode (codes req.new_password)) v))
                  (sym same)
                  (strength-IsChange req u _ v
                    (ap (λ (t : Tables). find? (has_user_id caller) t.users) (sym same) ∙ read)
                    (ground arith) refl))
          ]
