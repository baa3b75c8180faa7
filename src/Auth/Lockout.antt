-- ===== src/Auth/Lockout.antt =====
-- Guessing a password: what a sequence of failed logins leads to.
use agentlens.Common.{
  ℕ, Text, subst, ◌+◌, ◌<◌, String, ◌≡◌, ◌≢◌, refl, sym, ap, ap₂, ◌∙◌, ◌⊎◌, inl, inr, Bool, true,
  false, not, ◌||◌, Option, none, some, List, [], ◌∷◌, All, length, any, find?, update, leb, ltb,
  Bool-cases, if_true, if_false, ◌==◌, eq_iff, eq_refl, ==-false, if◌then◌else◌, arith,
}
use agentlens.Sql.{World, done, calm, world}
use agentlens.Sql.Laws.{bind_run, context_run, statement_calm, transaction_calm}
use agentlens.Tables.{Role, User, Tables}
use agentlens.Auth.Users.{
  max_failed_attempts, lock_duration, has_user_id, has_username, put_user, save_user, failed_again,
  increment_failed_attempts, get_by_username,
}
use agentlens.Auth.Login.{LoginResponse, refused, is_locked, login_found, login}

some_inj : {A : Type 0} {x y : A} → some x ≡ some y → x ≡ y
some_inj e = cc

module _ (u v : User) (same_id : v.id ≡ u.id) (same_name : v.username ≡ u.username) where
  put_user-by_id :
      (us : List User)
      → find? (has_user_id u.id) us ≡ some u
      → find? (has_user_id v.id) (update (has_user_id v.id) (λ _. v) us) ≡ some v
  put_user-by_id [] h = cc
  put_user-by_id (d ∷ us) h = elim (Bool-cases (d.id == v.id)) [
    | inl hit ↦ rw hit (rw (eq_refl v.id) refl)
    | inr miss ↦
        let other : (d.id == u.id) ≡ false = ap (λ x. d.id == x) (sym same_id) ∙ miss in
        rw miss (rw miss (put_user-by_id us (rw other at h)))
  ]

  put_user-by_name :
      (us : List User)
      → find? (has_user_id u.id) us ≡ some u
      → find? (has_username u.username) us ≡ some u
      → find? (has_username u.username) (update (has_user_id v.id) (λ _. v) us) ≡ some v
  put_user-by_name [] h k = cc
  put_user-by_name (d ∷ us) h k = elim (Bool-cases (d.id == v.id)) [
    | inl hit ↦
        let named : (v.username == u.username) ≡ true =
          (eq_iff v.username u.username).1 same_name in
        rw hit (rw named refl)
    | inr miss ↦
        let other : (d.id == u.id) ≡ false = ap (λ x. d.id == x) (sym same_id) ∙ miss in
        let unnamed = not_named d us other k (Bool-cases (d.username == u.username)) in
        rw miss (rw unnamed (put_user-by_name us (rw other at h) (rw unnamed at k)))
  ]
    where
      not_named :
          (d : User) (us : List User)
          → (d.id == u.id) ≡ false
          → find? (has_username u.username) (d ∷ us) ≡ some u
          → ((d.username == u.username) ≡ true) ⊎ ((d.username == u.username) ≡ false)
          → (d.username == u.username) ≡ false
      not_named d us other k (inl named) =
          let here : some d ≡ some u = rw named at k in
          let clash : (d.id == u.id) ≡ true =
            (eq_iff d.id u.id).1 (ap (λ x. x.id) (some_inj here)) in
          cc
      not_named d us other k (inr n) = n

any_found :
    (id : String) (us : List User) {u : User}
    → find? (has_user_id id) us ≡ some u
    → any (has_user_id id) us ≡ true
any_found id [] h = cc
any_found id (d ∷ us) h = elim (Bool-cases (d.id == id)) [
  | inl hit ↦ rw hit refl
  | inr miss ↦ rw miss (any_found id us (rw miss at h))
]

-- One account in a world without faults: who it is, how often it has failed, and its lock.
record IsAccount (name hash : String) (failed : ℕ) (lock : Option ℕ) (w : World Tables)
    : Type 0 where
  tables : Tables
  user : User
  quiet : w ≡ calm tables
  by_name : find? (has_username user.username) tables.users ≡ some user
  by_id : find? (has_user_id user.id) tables.users ≡ some user
  named : user.username ≡ name
  hashed : user.password_hash ≡ hash
  is_active : user.is_active ≡ true
  failures : user.failed_attempts ≡ failed
  locked : user.locked_until ≡ lock

increment_calm :
    (now : ℕ) (u : User) (t : Tables)
    → find? (has_user_id u.id) t.users ≡ some u
    → increment_failed_attempts now u.id (calm t)
      ≡ done tt (calm (save_user (failed_again now u) t))
unfolding increment_failed_attempts
increment_calm now u t h = transaction_calm _ (calm t) _ _ (
    bind_run _ _ (context_run _ _ (statement_calm _ t))
    ∙ rw h (context_run _ _ (statement_calm _ t)))

failed_again_id : (now : ℕ) (u : User) → (failed_again now u).id ≡ u.id
failed_again_id now u = ground arith

failed_again_username : (now : ℕ) (u : User) → (failed_again now u).username ≡ u.username
failed_again_username now u = ground arith

failed_again_rest :
    (now : ℕ) (u : User)
    → ((failed_again now u).password_hash ≡ u.password_hash)
      × ((failed_again now u).is_active ≡ u.is_active)
      × ((failed_again now u).failed_attempts ≡ u.failed_attempts + 1)
      × ((failed_again now u).locked_until ≡ (
          if leb max_failed_attempts (u.failed_attempts + 1)
          then some (now + lock_duration)
          else u.locked_until))
failed_again_rest now u = (ground arith, ground arith, ground arith, ground arith)

module _ (check : String → String → Bool) (generate : User → Option Role → Option Text)
    (name hash : String) (has_name : name ≢ "") where
  -- A time and a password that is not empty and that the hash does not match.
  abbrev pub IsWrong : ℕ × String → Type 0
  IsWrong attempt = (attempt.1 ≢ "") × (check attempt.1 hash ≡ false)

  abbrev pub attempt_login : ℕ × String → World Tables → LoginResponse × World Tables
  attempt_login attempt w = login check generate (attempt.0) (some (name, attempt.1)) w

  -- The world after a sequence of logins.
  unfoldable pub logins : List (ℕ × String) → World Tables → World Tables
  logins [] w = w
  logins (a ∷ attempts) w = logins attempts (attempt_login a w).1

  read_user :
      {failed : ℕ} {lock : Option ℕ} {w : World Tables}
      → (a : IsAccount name hash failed lock w)
      → get_by_username name w ≡ done (some a.user) (calm a.tables)
  unfolding get_by_username
  read_user {failed} {lock} {w} a = rw a.quiet (
      context_run _ _ (
        statement_calm _ a.tables
        ∙ ap (λ o. done o (calm a.tables))
            (ap (λ n. find? (has_username n) a.tables.users) (sym a.named) ∙ a.by_name)))

  login_run :
      {failed : ℕ} {lock : Option ℕ} {w : World Tables}
      → (a : IsAccount name hash failed lock w) → (now : ℕ) (password : String) → password ≢ ""
      → login check generate now (some (name, password)) w
        ≡ login_found check generate now password (done (some a.user) (calm a.tables))
  unfolding login
  login_run a now password given =
      let unnamed = ==-false name "" has_name in
      let empty = ==-false password "" given in
      if_false {b = name == "" || password == ""} _ _ (ground arith)
      ∙ ap (login_found check generate now password) (read_user a)

  -- A failed login of an account that is not locked.
  wrong_login :
      {failed : ℕ} {w : World Tables}
      → (a : IsAccount name hash failed none w) → (attempt : ℕ × String) → IsWrong attempt
      → attempt_login attempt w
        ≡ (refused 401, calm (save_user (failed_again (attempt.0) a.user) a.tables))
  wrong_login a (now, password) (given, wrong) =
      let unlocked : is_locked now a.user ≡ false =
        ap (λ o. elim o as (λ _. Bool) [ none ↦ false | some until ↦ ltb now until ]) a.locked in
      let mismatch : check password a.user.password_hash ≡ false =
        ap (check password) a.hashed ∙ wrong in
      login_run a now password given
      ∙ if_false _ _ (ap not a.is_active)
      ∙ if_false _ _ unlocked
      ∙ if_true _ _ (ap not mismatch)
      ∙ ap (λ o. (refused 401, world o)) (increment_calm now a.user a.tables a.by_id)

  -- A login of a locked account.
  locked_login :
      {failed until : ℕ} {w : World Tables}
      → (a : IsAccount name hash failed (some until) w) → (now : ℕ) (password : String)
      → password ≢ ""
      → now < until
      → login check generate now (some (name, password)) w ≡ (refused 423, w)
  locked_login {failed} {until} a now password given early =
      let shut : is_locked now a.user ≡ true =
        ap (λ o. elim o as (λ _. Bool) [ none ↦ false | some until ↦ ltb now until ]) a.locked
        ∙ (ground arith) in
      login_run a now password given
      ∙ if_false _ _ (ap not a.is_active)
      ∙ if_true _ _ shut
      ∙ ap (λ v. (refused 423, v)) (sym a.quiet)

  counted :
      {failed : ℕ} {w : World Tables}
      → (a : IsAccount name hash failed none w) → (attempt : ℕ × String) → IsWrong attempt
      → (lock : Option ℕ)
      → (if leb max_failed_attempts (failed + 1) then some (attempt.0 + lock_duration) else none)
        ≡ lock
      → IsAccount name hash (failed + 1) lock (attempt_login attempt w).1
  counted {failed} {w} a (now, password) wrong lock locks =
      let v = failed_again now a.user in
      let same_id = failed_again_id now a.user in
      let same_name = failed_again_username now a.user in
      let stored =
        any_found v.id a.tables.users
          (ap (λ i. find? (has_user_id i) a.tables.users) same_id ∙ a.by_id) in
      let (same_hash, same_active, more, lock_set) = failed_again_rest now a.user in
      record {
        tables = save_user v a.tables;
        user = v;
        quiet = ap (λ r. r.1) (wrong_login a (now, password) wrong);
        by_name =
            ap (find? (has_username v.username)) (if_true _ _ stored)
            ∙ ap (λ n. find? (has_username n) (put_user v a.tables.users)) same_name
            ∙ put_user-by_name a.user v same_id same_name a.tables.users a.by_id a.by_name;
        by_id =
            ap (find? (has_user_id v.id)) (if_true _ _ stored)
            ∙ put_user-by_id a.user v same_id same_name a.tables.users a.by_id;
        named = same_name ∙ a.named;
        hashed = same_hash ∙ a.hashed;
        is_active = same_active ∙ a.is_active;
        failures = more ∙ ap (λ n. n + 1) a.failures;
        locked =
            lock_set
            ∙ ap₂ (λ n o. if leb max_failed_attempts (n + 1) then some (now + lock_duration) else o)
                a.failures a.locked
            ∙ locks;
      }

  guesses :
      (attempts : List (ℕ × String)) {failed : ℕ} {w : World Tables}
      → IsAccount name hash failed none w
      → All IsWrong attempts
      → failed + length attempts < max_failed_attempts
      → IsAccount name hash (failed + length attempts) none (logins attempts w)
  unfolding logins
  guesses [] {failed} {w} a wrong few = subst (λ n. IsAccount name hash n none w) (omega arith) a
  guesses (attempt ∷ attempts) {failed} {w} a (first, wrong) few =
      subst (λ n. IsAccount name hash n none (logins attempts (attempt_login attempt w).1))
        (omega arith)
        (guesses attempts (counted a attempt first none (ground arith)) wrong (omega arith))

  -- Without faults, an active account that is not locked and whose identifier and name are its own:
  -- the wrong password that brings its failures to five locks it, so that every login within fifteen
  -- minutes is refused as locked, whatever its password, and changes nothing.
  pub fifth_failure_locks :
      (u : User) (t : Tables) (attempts : List (ℕ × String)) (now : ℕ) (password : String)
      (later : ℕ) (guess : String)
      → find? (has_username name) t.users ≡ some u
      → find? (has_user_id u.id) t.users ≡ some u
      → u.username ≡ name
      → u.password_hash ≡ hash
      → u.is_active ≡ true
      → u.locked_until ≡ none
      → All IsWrong attempts
      → IsWrong (now, password)
      → u.failed_attempts + length attempts + 1 ≡ max_failed_attempts
      → guess ≢ ""
      → later < now + lock_duration
      → let w = (attempt_login (now, password) (logins attempts (calm t))).1 in
        login check generate later (some (name, guess)) w ≡ (refused 423, w)
  fifth_failure_locks u t attempts now password later guess by_name by_id named hashed active
        unlocked wrong last five given early =
      let before : IsAccount name hash u.failed_attempts none (calm t) = record {
        tables = t;
        user = u;
        quiet = refl;
        by_name = ap (λ n. find? (has_username n) t.users) named ∙ by_name;
        by_id = by_id;
        named = named;
        hashed = hashed;
        is_active = active;
        failures = refl;
        locked = unlocked;
      } in
      let four = guesses attempts before wrong (omega arith) in
      locked_login (counted four (now, password) last (some (now + lock_duration)) (ground arith))
        later guess given early
