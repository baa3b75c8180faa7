-- ===== src/Admin/Stored.antt =====
-- What a request writes to the settings is what is read back.
use agentlens.Common.{
  String, ◌≡◌, ◌≢◌, refl, sym, subst, ap, ◌∙◌, inl, inr, false, Option, none, some, List, [], ◌∷◌,
  ◌++◌, any, find?, arith, update, Bool-cases, find-key, any-found, any-missing,
  find-append_missing, find-append_other, find-update, find-update_other, if_true, if_false,
  if◌then◌else◌, ◌==◌, eq_iff,
}
use agentlens.Http.{sent}
use agentlens.Sql.{calm, done, context, query}
use agentlens.Sql.Laws.{bind_run, context_run, statement_calm, attempt_calm}
use agentlens.Admin.Settings.{
  Setting, Settings, has_key, get_setting, new_setting, insert_setting, save_setting, set_found,
  set_setting, set_next, set_all, update_settings_handler,
}

-- The value of a row that may be missing.
abbrev pub value_of : Option Setting → Option String
value_of none = none
value_of (some s) = some s.value

-- What the last of the updates of a key writes.
abbrev pub last_value : List (String × String) → String → Option String → Option String
last_value [] key old = old
last_value ((k, value) ∷ updates) key old =
    last_value updates key (if k == key then some value else old)

Stored : String → String → Settings → Settings → Type 0
Stored k value before after =
    (j : String)
    → value_of (find? (has_key j) after)
      ≡ (if k == j then some value else value_of (find? (has_key j) before))

other_key : (k j : String) → (k == j) ≡ false → j ≢ k
other_key k j miss e = let clash = (eq_iff k j).1 (sym e) in cc

Stored-new :
    (k value : String) (ss : Settings)
    → find? (has_key k) ss ≡ none
    → Stored k value ss (ss ++ new_setting k value ∷ [])
unfolding Stored
Stored-new k value ss h j = elim (Bool-cases (k == j)) [
  | inl hit ↦
      let same = (eq_iff k j).0 hit in
      let missing : find? (has_key j) ss ≡ none = rw same at h in
      rw (find-append_missing (λ s. s.key) j ss (new_setting k value) missing) (rw hit refl)
  | inr miss ↦
      rw
        (find-append_other (λ s. s.key) j ss (new_setting k value)
          (λ e. other_key k j miss (sym e)))
        (rw miss refl)
]

Stored-changed :
    (k value : String) (s : Setting) (ss : Settings)
    → find? (has_key k) ss ≡ some s
    → Stored k value ss (update (has_key k) (λ _. record s { value = value }) ss)
unfolding Stored
Stored-changed k value s ss h j = elim (Bool-cases (k == j)) [
  | inl hit ↦
      let same = (eq_iff k j).0 hit in
      let kept : find? (has_key k) (update (has_key k) (λ _. record s { value = value }) ss)
          ≡ some (record s { value = value }) =
        find-update (λ s. s.key) k (λ _. record s { value = value }) ss
          (λ x e. find-key (λ s. s.key) k ss h) h in
      ap value_of (
        subst
          (λ i.
            find? (has_key i) (update (has_key k) (λ _. record s { value = value }) ss)
            ≡ some (record s { value = value }))
          same kept)
      ∙ rw hit refl
  | inr miss ↦
      ap value_of (
        find-update_other (λ s. s.key) j k (λ _. record s { value = value }) ss
          (λ x e. find-key (λ s. s.key) k ss h) (other_key k j miss))
      ∙ rw miss refl
]

set_setting_looked :
    (k value : String) (ss : Settings)
    → set_setting k value (calm ss) ≡ set_found k value (find? (has_key k) ss) (calm ss)
unfolding set_setting
set_setting_looked k value ss =
    bind_run _ (set_found k value)
      (context_run _ _ (statement_calm (λ ss. (find? (has_key k) ss, ss)) ss))

set_found-calm :
    (k value : String) (ss : Settings) (o : Option Setting)
    → (k == "") ≡ false
    → find? (has_key k) ss ≡ o
    → (ss' : Settings) × ((set_found k value o (calm ss) ≡ done tt (calm ss'))
        × Stored k value ss ss')
set_found-calm k value ss none named h = (
  ss ++ new_setting k value ∷ [],
  (
    context_run _ _ (
        attempt_calm (insert_setting (new_setting k value))
          (if_false _ _ (any-missing (λ s. s.key) k ss h))),
    Stored-new k value ss h,
  ),
)
set_found-calm k value ss (some s) named h = (
  update (has_key k) (λ _. record s { value = value }) ss,
  (
    context_run _ _ (attempt_calm (save_setting (record s { value = value })) saved),
    Stored-changed k value s ss h,
  ),
)
  where
    saved :
        save_setting (record s { value = value }) ss
        ≡ some (tt, update (has_key k) (λ _. record s { value = value }) ss)
    saved =
        let of_key = find-key (λ s. s.key) k ss h in
        rw (of_key, named)
          (ap (λ rows. some (tt, rows)) (if_true _ _ (any-found (λ s. s.key) k ss h)))

-- The updates in the order in which the loop takes them.
set_all-calm :
    (updates : List (String × String)) (ss : Settings)
    → any (λ u. u.0 == "") updates ≡ false
    → (ss' : Settings) × ((set_all updates (calm ss) ≡ (sent 200 tt, calm ss'))
        × ((k : String)
            → value_of (find? (has_key k) ss')
              ≡ last_value updates k (value_of (find? (has_key k) ss))))
unfolding set_all Stored
set_all-calm [] ss named = (ss, (refl, λ k. refl))
set_all-calm ((key, value) ∷ updates) ss named =
    let (mid, (first, stored)) =
      set_found-calm key value ss (find? (has_key key) ss) (ground arith) refl in
    let (ss', (rest, holds)) = set_all-calm updates mid (ground arith) in
    let ran : set_setting key value (calm ss) ≡ done tt (calm mid) =
      set_setting_looked key value ss ∙ first in
    (
      ss',
      (
        ap (set_next (λ v. set_all updates v) key) ran ∙ rest,
        λ k. holds k ∙ ap (last_value updates k) (stored k),
      ),
    )

-- Where no statement fails: a request with updates, none of the empty key, answers 200, and afterwards GetSetting reads for
-- every key the value of its last update, or what it read before where the request does not name
-- the key.
pub update_settings-get_setting :
    (updates : List (String × String)) (ss : Settings)
    → any (λ u. u.0 == "") updates ≡ false
    → (ss' : Settings) × ((update_settings_handler (some updates) (calm ss)
          ≡ (sent 200 tt, calm ss'))
        × ((k : String)
            → (o o' : Option Setting) × ((get_setting k (calm ss) ≡ done o (calm ss))
                × ((get_setting k (calm ss') ≡ done o' (calm ss'))
                    × (value_of o' ≡ last_value updates k (value_of o))))))
unfolding update_settings_handler get_setting
update_settings-get_setting updates ss named =
    let (ss', (ran, holds)) = set_all-calm updates ss named in
    (
      ss',
      (ran, λ k. (find? (has_key k) ss, find? (has_key k) ss', (read k ss, (read k ss', holds k)))),
    )
  where
    read :
        (k : String) (ss : Settings)
        → context "getting setting" (query (find? (has_key k))) (calm ss)
          ≡ done (find? (has_key k) ss) (calm ss)
    read k ss = context_run _ _ (statement_calm (λ ss. (find? (has_key k) ss, ss)) ss)
