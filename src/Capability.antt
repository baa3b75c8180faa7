-- ===== src/Capability.antt =====
-- The capabilities of internal/model/a2a_capabilities.go, a2a_security_capabilities.go and
-- mcp_capabilities.go with the registry of capability.go, and the summary of authentication of
-- internal/model/agent.go. Of a capability the fields are kept that this code reads. A text that the
-- code builds is the list of its bytes in UTF-8; a map is the list of its pairs.
mod Ordered
mod Summary
mod Tests
use agentlens.Common.{
  ℕ, ◌≤◌, String, Bool, true, false, not, ◌&&◌, ◌||◌, Option, none, some, List, [], ◌∷◌, ◌++◌, map,
  length, take, any, filter, find?, ltb, eqb, Text, bytes, ◌==◌, if◌then◌else◌,
}

pub record A2ASecurityScheme : Type 0 where
  pub scheme_name : String
  pub scheme_type : String
  pub http_scheme : String

pub record A2ASecurityRequirement : Type 0 where
  pub schemes : List (String × List String)
  pub skill_ref : String

pub data Capability : Type 0 where
  a2a_skill : (name : String) → Capability
  a2a_extension : (uri : String) → Capability
  a2a_interface : (url : String) → Capability
  a2a_signature : (algorithm : String) → Capability
  security_scheme : A2ASecurityScheme → Capability
  security_requirement : A2ASecurityRequirement → Capability
  mcp_tool : (name : String) → Capability
  mcp_resource : (name : String) → Capability
  mcp_prompt : (name : String) → Capability

abbrev pub kind : Capability → String
kind (a2a_skill name) = "a2a.skill"
kind (a2a_extension uri) = "a2a.extension"
kind (a2a_interface url) = "a2a.interface"
kind (a2a_signature algorithm) = "a2a.signature"
kind (security_scheme s) = "a2a.security_scheme"
kind (security_requirement r) = "a2a.security_requirement"
kind (mcp_tool name) = "mcp.tool"
kind (mcp_resource name) = "mcp.resource"
kind (mcp_prompt name) = "mcp.prompt"

-- The error, if there is one.
abbrev pub require : String → String → Option String
require value message = if value == "" then some message else none

abbrev pub validate_scheme : A2ASecurityScheme → Option String
validate_scheme s =
    if s.scheme_name == ""
    then some "a2a.security_scheme: scheme_name is required"
    else require s.scheme_type "a2a.security_scheme: type is required"

abbrev pub validate_schemes : List (String × List String) → Option String
validate_schemes [] = some "a2a.security_requirement: schemes is required"
validate_schemes (s ∷ ss) = none

unfoldable pub validate : Capability → Option String
validate (a2a_skill name) = require name "a2a.skill: name is required"
validate (a2a_extension uri) = require uri "a2a.extension: uri is required"
validate (a2a_interface url) = require url "a2a.interface: url is required"
validate (a2a_signature algorithm) = require algorithm "a2a.signature: algorithm is required"
validate (security_scheme s) = validate_scheme s
validate (security_requirement r) = validate_schemes r.schemes
validate (mcp_tool name) = require name "mcp.tool: name is required"
validate (mcp_resource name) = require name "mcp.resource: name is required"
validate (mcp_prompt name) = require name "mcp.prompt: name is required"

-- `sort.Strings` on the bytes of the texts.
abbrev pub text_leb : Text → Text → Bool
text_leb [] t = true
text_leb (c ∷ s) [] = false
text_leb (c ∷ s) (d ∷ t) = let rest = text_leb s t in ltb c d || eqb c d && rest

abbrev pub text_eq : Text → Text → Bool
text_eq [] [] = true
text_eq [] (d ∷ t) = false
text_eq (c ∷ s) [] = false
text_eq (c ∷ s) (d ∷ t) = eqb c d && text_eq s t

abbrev pub insert_text : Text → List Text → List Text
insert_text s [] = s ∷ []
insert_text s (t ∷ ts) =
    let rest = insert_text s ts in if text_leb s t then s ∷ t ∷ ts else t ∷ rest

unfoldable pub sort_texts : List Text → List Text
sort_texts [] = []
sort_texts (t ∷ ts) = insert_text t (sort_texts ts)

-- `strings.Join`
abbrev pub join : Text → List Text → Text
join sep [] = []
join sep (s ∷ []) = s
join sep (s ∷ t ∷ ts) = s ++ sep ++ join sep (t ∷ ts)

-- The kinds that init registers, and whether they are discoverable.
abbrev pub capability_registry : List (String × Bool)
capability_registry =
    ("a2a.skill", true)
    ∷ ("a2a.interface", false)
    ∷ ("a2a.security_scheme", false)
    ∷ ("a2a.security_requirement", false)
    ∷ ("a2a.extension", false)
    ∷ ("a2a.signature", false)
    ∷ ("mcp.tool", true)
    ∷ ("mcp.resource", true)
    ∷ ("mcp.prompt", true)
    ∷ []

unfoldable pub discoverable_kinds : List Text
discoverable_kinds = sort_texts (map (λ k. bytes (k.0)) (filter (λ k. k.1) capability_registry))

abbrev pub type_str : A2ASecurityScheme → Text
type_str s =
    if s.scheme_type == "http" && not (s.http_scheme == "")
    then bytes "http:" ++ bytes s.http_scheme
    else bytes s.scheme_type

abbrev pub add_new : Text → List Text → List Text
add_new t schemes = if any (text_eq t) schemes then schemes else schemes ++ t ∷ []

-- The loop over the capabilities: the types that were seen, and whether a requirement of the whole
-- agent was.
unfoldable pub scan_capabilities : List Capability → List Text → Bool → List Text × Bool
scan_capabilities [] schemes required = (schemes, required)
scan_capabilities (security_scheme s ∷ caps) schemes required =
    scan_capabilities caps (add_new (type_str s) schemes) required
scan_capabilities (security_requirement r ∷ caps) schemes required =
    scan_capabilities caps schemes (if r.skill_ref == "" then true else required)
scan_capabilities (c ∷ caps) schemes required = scan_capabilities caps schemes required

abbrev pub auth_name : Text → Text
auth_name s =
    if text_eq s (bytes "http:Bearer")
    then bytes "Bearer JWT"
    else if text_eq s (bytes "http:Basic")
    then bytes "Basic Auth"
    else if text_eq s (bytes "apiKey")
    then bytes "API Key"
    else if text_eq s (bytes "oauth2")
    then bytes "OAuth 2.0"
    else if text_eq s (bytes "openIdConnect")
    then bytes "OIDC"
    else if text_eq s (bytes "mutualTls")
    then bytes "mTLS"
    else s

abbrev pub shortened : Text → Text
shortened label = if ltb 40 (length label) then take 37 label ++ bytes "..." else label

abbrev pub build_auth_label : List Text → Text
build_auth_label [] = bytes "Open (no auth)"
build_auth_label (s ∷ schemes) = shortened (join (bytes " + ") (map auth_name (s ∷ schemes)))

pub record AuthSummary : Type 0 where
  pub types : List Text
  pub label : Text
  pub required : Bool

abbrev pub summary_of : List Text × Bool → Option AuthSummary
summary_of ([], required) = none
summary_of (s ∷ schemes, required) = some (record {
  types = sort_texts (s ∷ schemes);
  label = build_auth_label (sort_texts (s ∷ schemes));
  required = required;
})

unfoldable pub build_auth_summary : List Capability → Option AuthSummary
build_auth_summary caps = summary_of (scan_capabilities caps [] false)
