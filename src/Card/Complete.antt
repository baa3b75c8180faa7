-- ===== src/Card/Complete.antt =====
-- The validation against the list of what a card must have.
use agentlens.Common.{
  ℕ, ◌+◌, String, ◌≡◌, ◌≢◌, ◌↔◌, refl, sym, subst, ◌⊎◌, inl, inr, true, ◌&&◌, List, [], ◌∷◌, ◌++◌,
  All, Bool-cases, Text, codes, ◌==◌, eq_iff, if◌then◌else◌,
}
use agentlens.Card.{
  ValidationError, FullSkill, FullInterface, CapExtension, FullCard, Unmarshalled, read, failed,
  Json, required, extension_prefix, skill_prefix, is_empty, check_endpoint, check_extensions,
  extensions_of, validate_required_fields, check_skill, check_skills, validate_skills, result_of,
  validate_unmarshalled, validate_card,
}

abbrev pub IsCompleteSkill : FullSkill → Type 0
IsCompleteSkill s = (s.id ≢ "") × ((s.name ≢ "") × (s.description ≢ ""))

pub record IsComplete (card : FullCard) : Type 0 where
  pub name : card.name ≢ ""
  pub description : card.description ≢ ""
  pub version : card.version ≢ ""
  pub endpoint : (card.supported_interfaces ≢ []) ⊎ (card.url ≢ "")
  pub extensions : All (λ ext. ext.uri ≢ "") (extensions_of card.capabilities)
  pub skills : All IsCompleteSkill card.skills

append-empty {ℓ} : {A : Type ℓ} (xs ys : List A) → (xs ++ ys ≡ []) ↔ ((xs ≡ []) × (ys ≡ []))
append-empty [] ys = (λ h. (refl, h), λ (p, q). q)
append-empty (x ∷ xs) ys = (λ h. cc, λ (p, q). cc)

required_iff :
    (field : Text) (message value : String) → (required field message value ≡ []) ↔ (value ≢ "")
required_iff field message value = elim (Bool-cases (value == "")) [
  | inl e ↦ rw e (λ h. cc, λ h. absurd (h ((eq_iff value "").0 e)))
  | inr n ↦ rw n (λ h e. let clash = (eq_iff value "").1 e in cc, λ h. refl)
]

check_extensions_iff :
    (i : ℕ) (exts : List CapExtension)
    → (check_extensions i exts ≡ []) ↔ All (λ ext. ext.uri ≢ "") exts
unfolding check_extensions
check_extensions_iff i [] = (λ h. tt, λ h. refl)
check_extensions_iff i (ext ∷ exts) =
    let (to, from) = check_extensions_iff (i + 1) exts in
    let (first, back) =
      required_iff (extension_prefix i ++ codes ".uri") "extension uri is required" ext.uri in
    let (split, join) =
      append-empty
        (required (extension_prefix i ++ codes ".uri") "extension uri is required" ext.uri)
        (check_extensions (i + 1) exts) in
    (λ h. (first (split h).0, to (split h).1), λ (p, q). join (back p, from q))

-- Several lists of errors are empty together.
both {ℓ} :
    {A : Type ℓ} {xs ys : List A} {P Q : Type 0}
    → (xs ≡ []) ↔ P
    → (ys ≡ []) ↔ Q
    → (xs ++ ys ≡ []) ↔ (P × Q)
both {xs = xs} {ys = ys} f g =
    let (split, join) = append-empty xs ys in
    (λ h. (f.0 (split h).0, g.0 (split h).1), λ (p, q). join (f.1 p, g.1 q))

check_skill_iff : (i : ℕ) (s : FullSkill) → (check_skill i s ≡ []) ↔ IsCompleteSkill s
check_skill_iff i s =
    both (required_iff (skill_prefix i ++ codes ".id") "skill id is required" s.id) (
      both (required_iff (skill_prefix i ++ codes ".name") "skill name is required" s.name) (
        required_iff (skill_prefix i ++ codes ".description") "skill description is required"
          s.description))

check_skills_iff : (i : ℕ) (ss : List FullSkill) → (check_skills i ss ≡ []) ↔ All IsCompleteSkill ss
unfolding check_skills
check_skills_iff i [] = (λ h. tt, λ h. refl)
check_skills_iff i (s ∷ ss) = both (check_skill_iff i s) (check_skills_iff (i + 1) ss)

endpoint_iff :
    (ifaces : List FullInterface) (url : String) (e : ValidationError)
    → ((if is_empty ifaces && url == "" then e ∷ [] else []) ≡ []) ↔ ((ifaces ≢ []) ⊎ (url ≢ ""))
endpoint_iff [] url e = elim (Bool-cases (url == "")) [
  | inl missing ↦ rw missing (
    λ h. cc,
    λ h. elim h [
      | inl some_iface ↦ absurd (some_iface refl)
      | inr given ↦ absurd (given ((eq_iff url "").0 missing))
    ],
  )
  | inr given ↦ rw given (λ h. inr (λ same. let clash = (eq_iff url "").1 same in cc), λ h. refl)
]
endpoint_iff (i ∷ ifaces) url e = (λ h. inl (λ same. cc), λ h. refl)

check_endpoint_iff :
    (card : FullCard)
    → (check_endpoint card ≡ []) ↔ ((card.supported_interfaces ≢ []) ⊎ (card.url ≢ ""))
check_endpoint_iff card = endpoint_iff card.supported_interfaces card.url _

errors_iff :
    (card : FullCard)
    → (validate_required_fields card ++ validate_skills card ≡ []) ↔ IsComplete card
unfolding validate_required_fields validate_skills
errors_iff card =
    let (to, from) =
      both
        (both (required_iff (codes "name") "name is required" card.name) (
          both (required_iff (codes "description") "description is required" card.description) (
            both (required_iff (codes "version") "version is required" card.version) (
              both (check_endpoint_iff card)
                (check_extensions_iff 0 (extensions_of card.capabilities))))))
        (check_skills_iff 0 card.skills) in
    (
      λ h.
          let ((a, (b, (c, (d, e)))), f) = to h in
          record {
            name = a;
            description = b;
            version = c;
            endpoint = d;
            extensions = e;
            skills = f;
          },
      λ v. from ((v.name, (v.description, (v.version, (v.endpoint, v.extensions)))), v.skills),
    )

read_inj : {a b : FullCard} → read a ≡ read b → a ≡ b
read_inj e = cc

module _ (json : Json) where
  result_of-valid :
      (card : FullCard) (errs : List ValidationError)
      → ((result_of json card errs).valid ≡ true) ↔ (errs ≡ [])
  result_of-valid card [] = (λ h. refl, λ h. refl)
  result_of-valid card (e ∷ errs) = (λ h. cc, λ h. cc)

  -- A card is valid exactly if its JSON is read and it has a name, a description, a version, an
  -- interface or a URL, a URI in each extension, and an id, a name and a description in each skill.
  pub validate_card_iff :
      (raw : Text)
      → ((validate_card json raw).valid ≡ true)
        ↔ ((card : FullCard) × ((json.unmarshal_card raw ≡ read card) × IsComplete card))
  unfolding validate_card
  validate_card_iff raw = go (json.unmarshal_card raw)
    where
      go :
          (u : Unmarshalled)
          → ((validate_unmarshalled json u).valid ≡ true)
            ↔ ((card : FullCard) × ((u ≡ read card) × IsComplete card))
      go (failed err) = (λ h. cc, λ (card, (e, v)). cc)
      go (read card) =
          let (to, from) =
            result_of-valid card (validate_required_fields card ++ validate_skills card) in
          let (complete, back) = errors_iff card in
          (
            λ h. (card, (refl, complete (to h))),
            λ (other, (e, v)). from (back (subst IsComplete (sym (read_inj e)) v)),
          )
