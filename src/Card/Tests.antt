-- ===== src/Card/Tests.antt =====
-- Runs of the validation on two cards.
use agentlens.Common.{String, ◌≡◌, ◌↔◌, refl, true, none, some, [], ◌∷◌, All, codes}
use agentlens.Card.{
  FullSkill, FullCard, Unmarshalled, read, failed, Json, itoa, itoa_loop, check_extensions,
  check_skills, validate_required_fields, validate_skills, detect_spec_version, collect_warnings,
  build_preview, build_security_preview_names, validate_card,
}
use agentlens.Card.Decimal.{IsDigit, value_from, itoa_value}
use agentlens.Card.Complete.{IsComplete, validate_card_iff}

abbrev skill : String → FullSkill
skill name = record { id = "s"; name = name; description = "does" }

abbrev card : FullCard
card = record {
  name = "Agent";
  description = "Answers";
  url = "";
  version = "1";
  skills = skill "a" ∷ skill "" ∷ [];
  supported_interfaces = record { url = "http://a"; binding = "" } ∷ [];
  security_schemes = codes "{}";
  supports_extended_agent_card = none;
  capabilities = none;
  state_transition_history = some true;
}

abbrev good_card : FullCard
good_card = record card { skills = skill "a" ∷ [] }

-- One text is the card without a fault, another the card with one; the rest is no JSON.
abbrev json : Json
json = record {
  unmarshal_card = λ raw. elim raw as (λ _. Unmarshalled) [
    | [] ↦ failed "unexpected end"
    | c ∷ [] ↦ read good_card
    | c ∷ d ∷ cs ↦ read card
  ];
  unmarshal_map = λ raw. some ("oauth" ∷ "key" ∷ []);
  unmarshal_types = λ raw. none;
}

runs : Unit {0}
unfolding validate_card validate_required_fields validate_skills check_skills check_extensions
    detect_spec_version collect_warnings build_preview build_security_preview_names itoa itoa_loop
runs = tt

card_tests :
    ((validate_card json []).errors
      ≡ record { field = codes "json"; message = codes "invalid JSON: unexpected end" } ∷ [])
    × ((validate_card json (codes "ab")).errors
        ≡ record { field = codes "skills[1].name"; message = codes "skill name is required" } ∷ [])
    × ((validate_card json (codes "ab")).warnings
        ≡ "stateTransitionHistory is deprecated in v1.0" ∷ [])
    × ((validate_card json (codes "a")).preview
        ≡ some (record {
          display_name = "Agent";
          description = "Answers";
          protocol = "a2a";
          spec_version = "";
          skills_count = 1;
          extensions_count = 0;
          security_schemes = some ("key" ∷ "oauth" ∷ []);
          interfaces = "http://a" ∷ [];
        }))
    × (itoa 1234567890 ≡ codes "1234567890")
unfolding runs
card_tests = (refl, refl, refl, refl, refl)

itoa_value_example : All IsDigit (itoa 10) × (value_from 0 (itoa 10) ≡ 10)
itoa_value_example = itoa_value 10

validate_card_iff_example :
    ((validate_card json (codes "a")).valid ≡ true)
    ↔ ((found : FullCard) × ((json.unmarshal_card (codes "a") ≡ read found) × IsComplete found))
validate_card_iff_example = validate_card_iff json (codes "a")
