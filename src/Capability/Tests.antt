-- ===== src/Capability/Tests.antt =====
-- Capabilities of one agent.
use agentlens.Common.{length, ◌≡◌, refl, true, some, List, [], ◌∷◌, bytes}
use agentlens.Capability.{
  Capability, a2a_skill, security_scheme, security_requirement, validate, sort_texts,
  discoverable_kinds, scan_capabilities, build_auth_summary, A2ASecurityScheme, shortened, type_str,
}
use agentlens.Capability.Summary.{IsSummary, build_auth_summary-IsSummary}

abbrev capabilities : List Capability
capabilities =
    a2a_skill "translate"
    ∷ security_scheme (record { scheme_name = "o"; scheme_type = "oauth2"; http_scheme = "" })
    ∷ security_scheme (record { scheme_name = "b"; scheme_type = "http"; http_scheme = "Bearer" })
    ∷ security_requirement (record { schemes = ("b", []) ∷ []; skill_ref = "" })
    ∷ security_scheme (record { scheme_name = "c"; scheme_type = "http"; http_scheme = "Bearer" })
    ∷ []

summary_run :
    build_auth_summary capabilities
    ≡ some (record {
      types = bytes "http:Bearer" ∷ bytes "oauth2" ∷ [];
      label = bytes "Bearer JWT + OAuth 2.0";
      required = true;
    })
unfolding build_auth_summary scan_capabilities sort_texts
summary_run = refl

-- A label is cut by its bytes: 14 characters of three bytes are too many.
wide : A2ASecurityScheme
wide = record { scheme_name = "w"; scheme_type = "身份验证方案身份验证方案身份"; http_scheme = "" }

label_run : length (shortened (type_str wide)) ≡ 40
unfolding wide
label_run = refl

kinds_run :
    discoverable_kinds
    ≡ bytes "a2a.skill" ∷ bytes "mcp.prompt" ∷ bytes "mcp.resource" ∷ bytes "mcp.tool" ∷ []
unfolding discoverable_kinds sort_texts
kinds_run = refl

validate_run : validate (a2a_skill "") ≡ some "a2a.skill: name is required"
unfolding validate
validate_run = refl

build_auth_summary-IsSummary_example : IsSummary capabilities (build_auth_summary capabilities)
build_auth_summary-IsSummary_example = build_auth_summary-IsSummary capabilities
