-- ===== src/Common/Lists.antt =====
-- Lists under native lengths and Boolean tests, and membership by recursion, which the tactics
-- take apart.
use Prim.Native.Nat.{ℕ, zero, suc, ◌+◌, ◌≤◌, ◌<◌}
use mathlib.Core.Path.{◌≡◌, refl, sym, ap, subst, subst₂}
use mathlib.Core.Bool.{Bool, true, false, ◌||◌}
use mathlib.Core.Logic.{◌⊎◌, inl, inr, ◌↔◌}
use mathlib.Core.Option.{Option, none, some}
use mathlib.Core.List.{List, [], ◌∷◌, ◌++◌, map}
use native.Mathlib.Omega.{arith}
use agentlens.Common.Tests.{if◌then◌else◌, Bool-cases}

module _ {ℓ} {A : Type ℓ} where
  abbrev pub length : List A → ℕ
  length [] = 0
  length (x ∷ xs) = suc (length xs)

  abbrev pub take : ℕ → List A → List A
  take zero xs = []
  take (suc n) [] = []
  take (suc n) (x ∷ xs) = x ∷ take n xs

  abbrev pub drop : ℕ → List A → List A
  drop zero xs = xs
  drop (suc n) [] = []
  drop (suc n) (x ∷ xs) = drop n xs

  abbrev pub filter : (A → Bool) → List A → List A
  filter p [] = []
  filter p (x ∷ xs) = if p x then x ∷ filter p xs else filter p xs

  abbrev pub any : (A → Bool) → List A → Bool
  any p [] = false
  any p (x ∷ xs) = p x || any p xs

  -- The first element that passes the test.
  abbrev pub find? : (A → Bool) → List A → Option A
  find? p [] = none
  find? p (x ∷ xs) = if p x then some x else find? p xs

  -- The elements that pass the test are replaced.
  abbrev pub update : (A → Bool) → (A → A) → List A → List A
  update p f [] = []
  update p f (x ∷ xs) = (if p x then f x else x) ∷ update p f xs

  abbrev pub All {κ} : (A → Type κ) → List A → Type κ
  All P [] = Unit
  All P (x ∷ xs) = P x × All P xs

  pub length-take : (n : ℕ) (xs : List A) → length (take n xs) ≤ n
  length-take zero xs = omega arith
  length-take (suc n) [] = omega arith
  length-take (suc n) (x ∷ xs) = let shorter = length-take n xs in omega arith

  pub length-append : (xs ys : List A) → length (xs ++ ys) ≡ length xs + length ys
  length-append [] ys = omega arith
  length-append (x ∷ xs) ys = omega (arith, length-append xs ys)

  pub append_nil : (xs : List A) → xs ++ [] ≡ xs
  append_nil [] = refl
  append_nil (x ∷ xs) = ap (λ l. x ∷ l) (append_nil xs)

  pub append_assoc : (xs ys zs : List A) → (xs ++ ys) ++ zs ≡ xs ++ (ys ++ zs)
  append_assoc [] ys zs = refl
  append_assoc (x ∷ xs) ys zs = ap (λ l. x ∷ l) (append_assoc xs ys zs)

-- Membership is for rows, which live in the first universe, as `⊥` does.
module _ {A : Type 0} where
  abbrev pub Member : A → List A → Type 0
  Member a [] = ⊥
  Member a (x ∷ xs) = (x ≡ a) ⊎ Member a xs

  pub Member-append_left : (a : A) (xs ys : List A) → Member a xs → Member a (xs ++ ys)
  Member-append_left a [] ys m = elim m [ ]
  Member-append_left a (x ∷ xs) ys (inl e) = inl e
  Member-append_left a (x ∷ xs) ys (inr m) = inr (Member-append_left a xs ys m)

  pub Member-append_right : (a : A) (xs ys : List A) → Member a ys → Member a (xs ++ ys)
  Member-append_right a [] ys m = m
  Member-append_right a (x ∷ xs) ys m = inr (Member-append_right a xs ys m)

  pub Member-of_append : (a : A) (xs ys : List A) → Member a (xs ++ ys) → Member a xs ⊎ Member a ys
  Member-of_append a [] ys m = inr m
  Member-of_append a (x ∷ xs) ys (inl e) = inl (inl e)
  Member-of_append a (x ∷ xs) ys (inr m) = ground (arith, Member-of_append a xs ys m)

  pub Member-filter :
      (p : A → Bool) (xs : List A) (a : A) → Member a xs → p a ≡ true → Member a (filter p xs)
  Member-filter p [] a m h = elim m [ ]
  Member-filter p (x ∷ xs) a m h = ground (arith, Member-filter p xs a)

  pub Member-of_filter :
      (p : A → Bool) (xs : List A) (a : A) → Member a (filter p xs) → Member a xs × (p a ≡ true)
  Member-of_filter p [] a m = elim m [ ]
  Member-of_filter p (x ∷ xs) a m = ground (arith, Member-of_filter p xs a)

  pub any-true :
      (p : A → Bool) (xs : List A) → any p xs ≡ true → (a : A) × Member a xs × (p a ≡ true)
  any-true p [] h = cc
  any-true p (x ∷ xs) h = elim (Bool-cases (p x)) [
    | inl e ↦ (x, inl refl, e)
    | inr e ↦ let (a, m, k) = any-true p xs (ground arith) in (a, inr m, k)
  ]

  pub any_of_Member :
      (p : A → Bool) (xs : List A) (a : A) → Member a xs → p a ≡ true → any p xs ≡ true
  any_of_Member p [] a m h = elim m [ ]
  any_of_Member p (x ∷ xs) a m h = ground (arith, any_of_Member p xs a)

  pub find?-some :
      (p : A → Bool) (xs : List A) (a : A) → find? p xs ≡ some a → Member a xs × (p a ≡ true)
  find?-some p [] a h = cc
  find?-some p (x ∷ xs) a h = ground (arith, find?-some p xs a)

  pub find?-none :
      (p : A → Bool) (xs : List A) (a : A) → find? p xs ≡ none → Member a xs → p a ≡ false
  find?-none p [] a h m = elim m [ ]
  find?-none p (x ∷ xs) a h m = ground (arith, find?-none p xs a)

  -- A filter is empty exactly when no element passes.
  pub filter_empty_iff :
      (p : A → Bool) (xs : List A) → (0 < length (filter p xs)) ↔ (any p xs ≡ true)
  filter_empty_iff p [] = ground arith
  filter_empty_iff p (x ∷ xs) = ground (arith, filter_empty_iff p xs)

  pub All-Member {κ} : (P : A → Type κ) (xs : List A) (a : A) → All P xs → Member a xs → P a
  All-Member P [] a h m = elim m [ ]
  All-Member P (x ∷ xs) a h (inl e) = rw e at (h.0)
  All-Member P (x ∷ xs) a h (inr m) = All-Member P xs a h.1 m

module _ {A B : Type 0} where
  pub Member-map : (f : A → B) (xs : List A) (a : A) → Member a xs → Member (f a) (map f xs)
  Member-map f [] a m = elim m [ ]
  Member-map f (x ∷ xs) a (inl e) = inl (rw e)
  Member-map f (x ∷ xs) a (inr m) = inr (Member-map f xs a m)

  pub Member-of_map :
      (f : A → B) (xs : List A) (b : B) → Member b (map f xs) → (a : A) × Member a xs × (f a ≡ b)
  Member-of_map f [] b m = elim m [ ]
  Member-of_map f (x ∷ xs) b (inl e) = (x, inl refl, e)
  Member-of_map f (x ∷ xs) b (inr m) = let (a, k, e) = Member-of_map f xs b m in (a, inr k, e)

module _ {A B : Type 0} where
  -- The rows of SQL's `JOIN … ON`, one for each pair that fits.
  abbrev pub join_on : (A → B → Bool) → List A → List B → List (A × B)
  join_on on [] ys = []
  join_on on (x ∷ xs) ys = map (λ y. (x, y)) (filter (on x) ys) ++ join_on on xs ys

  pub Member-of_join_on :
      (on : A → B → Bool) (xs : List A) (ys : List B) (a : A) (b : B)
      → Member (a, b) (join_on on xs ys)
      → Member a xs × Member b ys × (on a b ≡ true)
  Member-of_join_on on [] ys a b m = elim m [ ]
  Member-of_join_on on (x ∷ xs) ys a b m =
      go (Member-of_join_on on xs ys a b)
        (Member-of_append (a, b) (map (λ y. (x, y)) (filter (on x) ys)) (join_on on xs ys) m)
    where
      go :
          (Member {A = A × B} (a, b) (join_on on xs ys)
            → Member a xs × Member b ys × (on a b ≡ true))
          → Member {A = A × B} (a, b) (map (λ y. (x, y)) (filter (on x) ys))
            ⊎ Member {A = A × B} (a, b) (join_on on xs ys)
          → Member a (x ∷ xs) × Member b ys × (on a b ≡ true)
      go rest (inl k) =
          let (y, n, e) = Member-of_map (λ y. (x, y)) (filter (on x) ys) (a, b) k in
          let (o, p) = Member-of_filter (on x) ys y n in
          let left : x ≡ a = ap (λ z. z.0) e in
          let right : y ≡ b = ap (λ z. z.1) e in
          (inl left, subst (λ z. Member z ys) right o, subst₂ (λ u v. on u v ≡ true) left right p)
      go rest (inr k) = let (n, o, p) = rest k in (inr n, o, p)

  pub Member-join_on :
      (on : A → B → Bool) (xs : List A) (ys : List B) (a : A) (b : B)
      → Member a xs
      → Member b ys
      → on a b ≡ true
      → Member (a, b) (join_on on xs ys)
  Member-join_on on [] ys a b m n h = elim m [ ]
  Member-join_on on (x ∷ xs) ys a b (inl e) n h =
      Member-append_left (a, b) (map (λ y. (x, y)) (filter (on x) ys)) _
        (subst (λ z. Member {A = A × B} (a, b) (map (λ y. (z, y)) (filter (on z) ys))) (sym e)
          (Member-map (λ y. (a, y)) (filter (on a) ys) b (Member-filter (on a) ys b n h)))
  Member-join_on on (x ∷ xs) ys a b (inr m) n h =
      Member-append_right (a, b) (map (λ y. (x, y)) (filter (on x) ys)) _
        (Member-join_on on xs ys a b m n h)
