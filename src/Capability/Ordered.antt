-- ===== src/Capability/Ordered.antt =====
-- The order and the repetitions of the types that buildAuthSummary collects.
use agentlens.Common.{
  ◌≡◌, ◌≢◌, refl, sym, subst, ◌∙◌, ◌↔◌, ◌⊎◌, inl, inr, true, false, List, [], ◌∷◌, ◌++◌, any,
  eqb_iff, Bool-cases, Member, Member-of_append, any_of_Member, Text, arith,
}
use agentlens.Capability.{text_eq, text_leb, insert_text, sort_texts, add_new}

text_eq_refl : (t : Text) → text_eq t t ≡ true
text_eq_refl [] = refl
text_eq_refl (c ∷ t) = let rest = text_eq_refl t in ground (arith, eqb_iff c c)

pub text_leb_total : (s t : Text) → text_leb s t ≡ false → text_leb t s ≡ true
text_leb_total [] t h = cc
text_leb_total (c ∷ s) [] h = refl
text_leb_total (c ∷ s) (d ∷ t) h = ground (arith, text_leb_total s t)

pub text_leb_trans :
    (s t u : Text) → text_leb s t ≡ true → text_leb t u ≡ true → text_leb s u ≡ true
text_leb_trans [] t u h k = refl
text_leb_trans (c ∷ s) [] u h k = cc
text_leb_trans (c ∷ s) (d ∷ t) [] h k = cc
text_leb_trans (c ∷ s) (d ∷ t) (e ∷ u) h k = ground (arith, text_leb_trans s t u)

-- No text stands twice.
abbrev pub NoRepeats : List Text → Type 0
NoRepeats [] = Unit
NoRepeats (t ∷ ts) = (¬ Member t ts) × NoRepeats ts

-- Each text is before all later ones, and differs from them.
abbrev pub IsOrdered : List Text → Type 0
IsOrdered [] = Unit
IsOrdered (t ∷ ts) = ((u : Text) → Member u ts → (t ≢ u) × (text_leb t u ≡ true)) × IsOrdered ts

append-NoRepeats :
    (t : Text) (ts : List Text) → ¬ Member t ts → NoRepeats ts → NoRepeats (ts ++ t ∷ [])
append-NoRepeats t [] new h = (λ m. elim m [ ], tt)
append-NoRepeats t (x ∷ ts) new (first, h) = (
  λ m. elim (Member-of_append x ts (t ∷ []) m) [
    | inl n ↦ first n
    | inr (inl e) ↦ new (inl (sym e))
    | inr (inr n) ↦ elim n [ ]
  ],
  append-NoRepeats t ts (λ m. new (inr m)) h,
)

pub add_new-NoRepeats : (t : Text) (ts : List Text) → NoRepeats ts → NoRepeats (add_new t ts)
add_new-NoRepeats t ts h = elim (Bool-cases (any (text_eq t) ts)) [
  | inl there ↦ rw there h
  | inr new ↦ rw new (append-NoRepeats t ts (absent new) h)
]
  where
    absent : any (text_eq t) ts ≡ false → ¬ Member t ts
    absent new m = let found = any_of_Member (text_eq t) ts t m (text_eq_refl t) in cc

pub Member-insert :
    (t u : Text) (ts : List Text) → Member u (insert_text t ts) ↔ ((t ≡ u) ⊎ Member u ts)
Member-insert t u [] = (λ m. m, λ m. m)
Member-insert t u (x ∷ ts) = ground (arith, Member-insert t u ts)

pub Member-sort : (u : Text) (ts : List Text) → Member u (sort_texts ts) ↔ Member u ts
unfolding sort_texts
Member-sort u [] = (λ m. m, λ m. m)
Member-sort u (t ∷ ts) = ground (arith, Member-insert t u (sort_texts ts), Member-sort u ts)

insert-IsOrdered :
    (t : Text) (ts : List Text) → ¬ Member t ts → IsOrdered ts → IsOrdered (insert_text t ts)
insert-IsOrdered t [] new h = (λ u m. elim m [ ], tt)
insert-IsOrdered t (x ∷ ts) new (first, h) = elim (Bool-cases (text_leb t x)) [
  | inl before ↦ rw before (
    λ u m. (
      λ e. new (subst (λ y. Member y (x ∷ ts)) (sym e) m),
      elim m [
        | inl e ↦ subst (λ y. text_leb t y ≡ true) e before
        | inr n ↦ text_leb_trans t x u before (first u n).1
      ],
    ),
    (first, h),
  )
  | inr after ↦ rw after (
    λ u m. elim ((Member-insert t u ts).0 m) [
      | inl e ↦ (
        λ same. new (inl (same ∙ sym e)),
        subst (λ y. text_leb x y ≡ true) e (text_leb_total t x after),
      )
      | inr n ↦ first u n
    ],
    insert-IsOrdered t ts (λ m. new (inr m)) h,
  )
]

pub sort_texts-IsOrdered : (ts : List Text) → NoRepeats ts → IsOrdered (sort_texts ts)
unfolding sort_texts
sort_texts-IsOrdered [] h = tt
sort_texts-IsOrdered (t ∷ ts) (first, h) =
    insert-IsOrdered t (sort_texts ts) (λ m. first ((Member-sort t ts).0 m))
      (sort_texts-IsOrdered ts h)
