-- ===== src/Capability/Summary.antt =====
-- The summary of authentication against the capabilities that it sums up.
use agentlens.Common.{
  ◌≡◌, refl, sym, subst, ◌∙◌, ◌↔◌, ◌⊎◌, inl, inr, Bool, true, false, ◌||◌, Option, none, some, List,
  [], ◌∷◌, any, eqb_iff, Bool-cases, Member, Member-append_left, Member-append_right,
  Member-of_append, any-true, ◌≤◌, length, take, map, ltb, length-take, length-append,
  if◌then◌else◌, Text, bytes, ◌==◌, arith,
}
use agentlens.Capability.Ordered.{
  NoRepeats, IsOrdered, add_new-NoRepeats, Member-sort, sort_texts-IsOrdered,
}
use agentlens.Capability.{
  Capability, a2a_skill, a2a_extension, a2a_interface, a2a_signature, security_scheme,
  security_requirement, mcp_tool, mcp_resource, mcp_prompt, text_eq, sort_texts, type_str, add_new,
  scan_capabilities, AuthSummary, summary_of, build_auth_label, shortened, join, auth_name,
  build_auth_summary,
}

text_eq-true : (s t : Text) → text_eq s t ≡ true → s ≡ t
text_eq-true [] [] h = refl
text_eq-true [] (d ∷ t) h = cc
text_eq-true (c ∷ s) [] h = cc
text_eq-true (c ∷ s) (d ∷ t) h = ground (arith, eqb_iff c d, text_eq-true s t)

-- A capability that declares a type of authentication.
abbrev pub Declares : Text → Capability → Type 0
Declares t (security_scheme s) = type_str s ≡ t
Declares t (a2a_skill name) = ⊥
Declares t (a2a_extension uri) = ⊥
Declares t (a2a_interface url) = ⊥
Declares t (a2a_signature algorithm) = ⊥
Declares t (security_requirement r) = ⊥
Declares t (mcp_tool name) = ⊥
Declares t (mcp_resource name) = ⊥
Declares t (mcp_prompt name) = ⊥

abbrev pub Declared : Text → List Capability → Type 0
Declared t [] = ⊥
Declared t (c ∷ caps) = Declares t c ⊎ Declared t caps

abbrev pub is_agent_requirement : Capability → Bool
is_agent_requirement (security_requirement r) = r.skill_ref == ""
is_agent_requirement _ = false

Member-add_new : (t u : Text) (ts : List Text) → Member u (add_new t ts) ↔ ((t ≡ u) ⊎ Member u ts)
Member-add_new t u ts = elim (Bool-cases (any (text_eq t) ts)) [
  | inl there ↦ rw there (
    λ m. inr m,
    λ m. elim m [
      | inl e ↦
          let (x, n, same) = any-true (text_eq t) ts there in
          let it : x ≡ u = sym (text_eq-true t x same) ∙ e in subst (λ y. Member y ts) it n
      | inr n ↦ n
    ],
  )
  | inr new ↦ rw new (
    λ m. elim (Member-of_append u ts (t ∷ []) m) [ inl n ↦ inr n | inr n ↦ ground arith ],
    λ m. elim m [
      | inl e ↦ Member-append_right u ts (t ∷ []) (inl e)
      | inr n ↦ Member-append_left u ts (t ∷ []) n
    ],
  )
]

Member-scan :
    (t : Text) (caps : List Capability) (ts : List Text) (required : Bool)
    → Member t (scan_capabilities caps ts required).0 ↔ (Member t ts ⊎ Declared t caps)
unfolding scan_capabilities
Member-scan t [] ts required = (λ m. inl m, λ m. elim m [ inl n ↦ n | inr never ↦ elim never [ ] ])
Member-scan t (security_scheme s ∷ caps) ts required =
    ground (
      arith,
      Member-scan t caps (add_new (type_str s) ts) required,
      Member-add_new (type_str s) t ts,
    )
Member-scan t (security_requirement r ∷ caps) ts required =
    ground (arith, Member-scan t caps ts (if r.skill_ref == "" then true else required))
Member-scan t (a2a_skill name ∷ caps) ts required = ground (arith, Member-scan t caps ts required)
Member-scan t (a2a_extension uri ∷ caps) ts required =
    ground (arith, Member-scan t caps ts required)
Member-scan t (a2a_interface url ∷ caps) ts required =
    ground (arith, Member-scan t caps ts required)
Member-scan t (a2a_signature algorithm ∷ caps) ts required =
    ground (arith, Member-scan t caps ts required)
Member-scan t (mcp_tool name ∷ caps) ts required = ground (arith, Member-scan t caps ts required)
Member-scan t (mcp_resource name ∷ caps) ts required =
    ground (arith, Member-scan t caps ts required)
Member-scan t (mcp_prompt name ∷ caps) ts required = ground (arith, Member-scan t caps ts required)

NoRepeats-scan :
    (caps : List Capability) (ts : List Text) (required : Bool)
    → NoRepeats ts
    → NoRepeats (scan_capabilities caps ts required).0
unfolding scan_capabilities
NoRepeats-scan [] ts required h = h
NoRepeats-scan (security_scheme s ∷ caps) ts required h =
    NoRepeats-scan caps (add_new (type_str s) ts) required (add_new-NoRepeats (type_str s) ts h)
NoRepeats-scan (security_requirement r ∷ caps) ts required h =
    NoRepeats-scan caps ts (if r.skill_ref == "" then true else required) h
NoRepeats-scan (a2a_skill name ∷ caps) ts required h = NoRepeats-scan caps ts required h
NoRepeats-scan (a2a_extension uri ∷ caps) ts required h = NoRepeats-scan caps ts required h
NoRepeats-scan (a2a_interface url ∷ caps) ts required h = NoRepeats-scan caps ts required h
NoRepeats-scan (a2a_signature algorithm ∷ caps) ts required h = NoRepeats-scan caps ts required h
NoRepeats-scan (mcp_tool name ∷ caps) ts required h = NoRepeats-scan caps ts required h
NoRepeats-scan (mcp_resource name ∷ caps) ts required h = NoRepeats-scan caps ts required h
NoRepeats-scan (mcp_prompt name ∷ caps) ts required h = NoRepeats-scan caps ts required h

required-scan :
    (caps : List Capability) (ts : List Text) (required : Bool)
    → (scan_capabilities caps ts required).1 ≡ (required || any is_agent_requirement caps)
unfolding scan_capabilities
required-scan [] ts required = ground arith
required-scan (security_scheme s ∷ caps) ts required =
    required-scan caps (add_new (type_str s) ts) required
required-scan (security_requirement r ∷ caps) ts required =
    required-scan caps ts (if r.skill_ref == "" then true else required) ∙ ground arith
required-scan (a2a_skill name ∷ caps) ts required = required-scan caps ts required
required-scan (a2a_extension uri ∷ caps) ts required = required-scan caps ts required
required-scan (a2a_interface url ∷ caps) ts required = required-scan caps ts required
required-scan (a2a_signature algorithm ∷ caps) ts required = required-scan caps ts required
required-scan (mcp_tool name ∷ caps) ts required = required-scan caps ts required
required-scan (mcp_resource name ∷ caps) ts required = required-scan caps ts required
required-scan (mcp_prompt name ∷ caps) ts required = required-scan caps ts required

shortened_bound : (label : Text) → length (shortened label) ≤ 40
shortened_bound label = elim (Bool-cases (ltb 40 (length label))) [
  | inl long ↦ rw long (
      let cut = length-take 37 label in
      let whole = length-append (take 37 label) (bytes "...") in omega (arith, cut, whole))
  | inr fits ↦ rw fits (ground arith)
]

label_bound : (ts : List Text) → length (build_auth_label ts) ≤ 40
label_bound [] = omega arith
label_bound (t ∷ ts) = shortened_bound (join (bytes " + ") (map auth_name (t ∷ ts)))

-- What a summary says of the capabilities.
abbrev pub IsSummary : List Capability → Option AuthSummary → Type 0
IsSummary caps none = (t : Text) → Declared t caps → ⊥
IsSummary caps (some s) =
    ((t : Text) → Member t s.types ↔ Declared t caps)
    × IsOrdered s.types
    × (s.required ≡ any is_agent_requirement caps)
    × (length s.label ≤ 40)

summary_of-IsSummary :
    (caps : List Capability) (p : List Text × Bool)
    → ((t : Text) → Member t p.0 ↔ Declared t caps)
    → NoRepeats p.0
    → p.1 ≡ any is_agent_requirement caps
    → IsSummary caps (summary_of p)
summary_of-IsSummary caps ([], required) types once r = λ t d. (types t).1 d
summary_of-IsSummary caps (s ∷ schemes, required) types once r = (
  λ t.
      let (to, from) = Member-sort t (s ∷ schemes) in
      let (out, back) = types t in (λ m. out (to m), λ d. from (back d)),
  sort_texts-IsOrdered (s ∷ schemes) once,
  r,
  label_bound (sort_texts (s ∷ schemes)),
)

-- Where buildAuthSummary gives nothing, no security scheme is declared; the types of what it gives are
-- exactly those that the schemes declare, each once and in the order of their bytes, it says required
-- exactly if a requirement is one of the
-- whole agent, and its label has at most 40 bytes.
pub build_auth_summary-IsSummary :
    (caps : List Capability) → IsSummary caps (build_auth_summary caps)
unfolding build_auth_summary
build_auth_summary-IsSummary caps =
    summary_of-IsSummary caps (scan_capabilities caps [] false)
      (λ t.
        let (to, from) = Member-scan t caps [] false in
        (λ m. elim (to m) [ inl never ↦ elim never [ ] | inr d ↦ d ], λ d. from (inr d)))
      (NoRepeats-scan caps [] false tt) (required-scan caps [] false)
