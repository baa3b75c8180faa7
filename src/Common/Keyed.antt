-- ===== src/Common/Keyed.antt =====
-- Lists of rows that are found by a key, as the rows of a table are.
use mathlib.Core.Path.{◌≡◌, refl, sym, ap, ◌∙◌}
use mathlib.Core.Logic.{◌≢◌, inl, inr}
use mathlib.Core.Bool.{Bool, true, false, not}
use mathlib.Core.Option.{none, some}
use mathlib.Core.List.{List, [], ◌∷◌, ◌++◌}
use Prim.Native.String.{String}
use text.Mathlib.Text.{◌==◌}
use text.Mathlib.TextEquality.{eq_iff}
use agentlens.Common.Tests.{Bool-cases}
use agentlens.Common.Lists.{filter, any, find?, update}
use agentlens.Common.Texts.{==-false}

pub some_inj : {A : Type 0} {x y : A} → some x ≡ some y → x ≡ y
some_inj e = cc

module _ {A : Type 0} (key : A → String) where
  abbrev pub has : String → A → Bool
  has k a = key a == k

  pub find-key : (k : String) (xs : List A) {a : A} → find? (has k) xs ≡ some a → key a ≡ k
  find-key k [] h = cc
  find-key k (x ∷ xs) {a} h = elim (Bool-cases (key x == k)) [
    | inl hit ↦ ap key (sym (some_inj (rw hit at h))) ∙ (eq_iff (key x) k).0 hit
    | inr miss ↦ find-key k xs (rw miss at h)
  ]

  pub any-found :
      (k : String) (xs : List A) {a : A} → find? (has k) xs ≡ some a → any (has k) xs ≡ true
  any-found k [] h = cc
  any-found k (x ∷ xs) h = elim (Bool-cases (key x == k)) [
    | inl hit ↦ rw hit refl
    | inr miss ↦ rw miss (any-found k xs (rw miss at h))
  ]

  pub any-missing : (k : String) (xs : List A) → find? (has k) xs ≡ none → any (has k) xs ≡ false
  any-missing k [] h = refl
  any-missing k (x ∷ xs) h = elim (Bool-cases (key x == k)) [
    | inl hit ↦ let clash = rw hit at h in cc
    | inr miss ↦ rw miss (any-missing k xs (rw miss at h))
  ]

  pub find-append :
      (k : String) (xs ys : List A) {a : A}
      → find? (has k) xs ≡ some a
      → find? (has k) (xs ++ ys) ≡ some a
  find-append k [] ys h = cc
  find-append k (x ∷ xs) ys h = elim (Bool-cases (key x == k)) [
    | inl hit ↦ rw hit (rw hit at h)
    | inr miss ↦ rw miss (find-append k xs ys (rw miss at h))
  ]

  pub find-append_missing :
      (k : String) (xs : List A) (a : A)
      → find? (has k) xs ≡ none
      → find? (has k) (xs ++ a ∷ []) ≡ find? (has k) (a ∷ [])
  find-append_missing k [] a h = refl
  find-append_missing k (x ∷ xs) a h = elim (Bool-cases (key x == k)) [
    | inl hit ↦ let clash = rw hit at h in cc
    | inr miss ↦ rw miss (find-append_missing k xs a (rw miss at h))
  ]

  -- A row of another key added at the end is not found.
  pub find-append_other :
      (k : String) (xs : List A) (a : A)
      → key a ≢ k
      → find? (has k) (xs ++ a ∷ []) ≡ find? (has k) xs
  find-append_other k [] a other = rw (==-false (key a) k other) refl
  find-append_other k (x ∷ xs) a other = elim (Bool-cases (key x == k)) [
    | inl hit ↦ rw hit refl
    | inr miss ↦ rw miss (find-append_other k xs a other)
  ]

  pub find-filter_other :
      (k other : String) (xs : List A)
      → k ≢ other
      → find? (has k) (filter (λ x. not (has other x)) xs) ≡ find? (has k) xs
  find-filter_other k other [] differ = refl
  find-filter_other k other (x ∷ xs) differ = elim (Bool-cases (key x == other)) [
    | inl gone ↦
        let unmet : (key x == k) ≡ false =
          ==-false (key x) k (λ e. differ (sym e ∙ (eq_iff (key x) other).0 gone)) in
        rw gone (rw unmet (find-filter_other k other xs differ))
    | inr kept ↦ rw kept (elim (Bool-cases (key x == k)) [
      | inl hit ↦ rw hit refl
      | inr miss ↦ rw miss (find-filter_other k other xs differ)
    ])
  ]

  pub find-update :
      (k : String) (f : A → A) (xs : List A) {a : A}
      → ((x : A) → key x ≡ k → key (f x) ≡ k)
      → find? (has k) xs ≡ some a
      → find? (has k) (update (has k) f xs) ≡ some (f a)
  find-update k f [] keeps h = cc
  find-update k f (x ∷ xs) keeps h = elim (Bool-cases (key x == k)) [
    | inl hit ↦
        let moved : (key (f x) == k) ≡ true =
          (eq_iff (key (f x)) k).1 (keeps x ((eq_iff (key x) k).0 hit)) in
        rw hit (rw moved (ap some (ap f (some_inj (rw hit at h)))))
    | inr miss ↦ rw miss (rw miss (find-update k f xs keeps (rw miss at h)))
  ]

  pub find-update_other :
      (k other : String) (f : A → A) (xs : List A)
      → ((x : A) → key x ≡ other → key (f x) ≡ other)
      → k ≢ other
      → find? (has k) (update (has other) f xs) ≡ find? (has k) xs
  find-update_other k other f [] keeps differ = refl
  find-update_other k other f (x ∷ xs) keeps differ = elim (Bool-cases (key x == other)) [
    | inl hit ↦
        let here : key x ≡ other = (eq_iff (key x) other).0 hit in
        let before : (key x == k) ≡ false = ==-false (key x) k (λ e. differ (sym e ∙ here)) in
        let after : (key (f x) == k) ≡ false =
          ==-false (key (f x)) k (λ e. differ (sym e ∙ keeps x here)) in
        rw hit (rw after (rw before (find-update_other k other f xs keeps differ)))
    | inr miss ↦ rw miss (elim (Bool-cases (key x == k)) [
      | inl hit ↦ rw hit refl
      | inr not_hit ↦ rw not_hit (find-update_other k other f xs keeps differ)
    ])
  ]
