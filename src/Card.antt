-- ===== src/Card.antt =====
-- plugins/parsers/a2a/validation.go: the validation of an A2A agent card. encoding/json is a
-- parameter: a card that it does not read is its error text. The texts of an error are lists of
-- code points.
mod Decimal
mod Complete
mod Tests
use Prim.Native.Nat.{Ordering}
use Prim.Native.String.{compare}
use agentlens.Common.{
  ℕ, zero, suc, ◌+◌, ◌/◌, ◌%◌, String, Bool, true, false, ◌&&◌, ◌||◌, Option, none, some, List, [],
  ◌∷◌, ◌++◌, map, length, ltb, eqb, Text, codes, ◌==◌, if◌then◌else◌,
}

-- The loop of `itoa`; `fuel` bounds its rounds, and `itoa` gives enough.
unfoldable pub itoa_loop : ℕ → ℕ → Text → Text
itoa_loop zero n digits = digits
itoa_loop (suc fuel) n digits = elim (ltb 0 n) [
  | true ↦ itoa_loop fuel (n / 10) ((48 + n % 10) ∷ digits)
  | false ↦ digits
]

unfoldable pub itoa : ℕ → Text
itoa n = if eqb n 0 then codes "0" else itoa_loop n n []

pub record ValidationError : Type 0 where
  pub field : Text
  pub message : Text

pub record ValidationPreview : Type 0 where
  pub display_name : String
  pub description : String
  pub protocol : String
  pub spec_version : String
  pub skills_count : ℕ
  pub extensions_count : ℕ
  pub security_schemes : Option (List String)
  pub interfaces : List String

pub record ValidationResult : Type 0 where
  pub valid : Bool
  pub spec_version : String
  pub errors : List ValidationError
  pub warnings : List String
  pub preview : Option ValidationPreview

pub record FullSkill : Type 0 where
  pub id : String
  pub name : String
  pub description : String

pub record FullInterface : Type 0 where
  pub url : String
  pub binding : String

pub record CapExtension : Type 0 where
  pub uri : String
  pub required : Bool

pub record Capabilities : Type 0 where
  pub extensions : List CapExtension
  pub supports_extended_agent_card : Option Bool

-- The fields that the validation reads. `security_schemes` is the raw JSON, empty if absent.
pub record FullCard : Type 0 where
  pub name : String
  pub description : String
  pub url : String
  pub version : String
  pub skills : List FullSkill
  pub supported_interfaces : List FullInterface
  pub security_schemes : Text
  pub supports_extended_agent_card : Option Bool
  pub capabilities : Option Capabilities
  pub state_transition_history : Option Bool

abbrev pub is_set : Option Bool → Bool
is_set none = false
is_set (some b) = true

abbrev pub nested_flag : Option Capabilities → Bool
nested_flag none = false
nested_flag (some c) = is_set c.supports_extended_agent_card

unfoldable pub detect_spec_version : FullCard → String
detect_spec_version card =
    if is_set card.supports_extended_agent_card
    then "0.3"
    else if nested_flag card.capabilities
    then "1.0"
    else ""

-- `errs = append(errs, …)` under a test that a text is empty.
abbrev pub required : Text → String → String → List ValidationError
required field message value =
    if value == "" then record { field = field; message = codes message } ∷ [] else []

abbrev pub is_empty {ℓ} : {A : Type ℓ} → List A → Bool
is_empty [] = true
is_empty (x ∷ xs) = false

abbrev pub check_endpoint : FullCard → List ValidationError
check_endpoint card =
    if is_empty card.supported_interfaces && card.url == ""
    then record { field = codes "url"; message = codes "url or supportedInterfaces is required" }
      ∷ []
    else []

abbrev pub extension_prefix : ℕ → Text
extension_prefix i = codes "capabilities.extensions[" ++ (itoa i ++ codes "]")

unfoldable pub check_extensions : ℕ → List CapExtension → List ValidationError
check_extensions i [] = []
check_extensions i (ext ∷ exts) =
    required (extension_prefix i ++ codes ".uri") "extension uri is required" ext.uri
    ++ check_extensions (i + 1) exts

abbrev pub extensions_of : Option Capabilities → List CapExtension
extensions_of none = []
extensions_of (some c) = c.extensions

unfoldable pub validate_required_fields : FullCard → List ValidationError
validate_required_fields card =
    required (codes "name") "name is required" card.name
    ++ (required (codes "description") "description is required" card.description
        ++ (required (codes "version") "version is required" card.version
            ++ (check_endpoint card ++ check_extensions 0 (extensions_of card.capabilities))))

abbrev pub skill_prefix : ℕ → Text
skill_prefix i = codes "skills[" ++ (itoa i ++ codes "]")

abbrev pub check_skill : ℕ → FullSkill → List ValidationError
check_skill i s =
    required (skill_prefix i ++ codes ".id") "skill id is required" s.id
    ++ (required (skill_prefix i ++ codes ".name") "skill name is required" s.name
        ++ required (skill_prefix i ++ codes ".description") "skill description is required"
            s.description)

unfoldable pub check_skills : ℕ → List FullSkill → List ValidationError
check_skills i [] = []
check_skills i (s ∷ ss) = check_skill i s ++ check_skills (i + 1) ss

unfoldable pub validate_skills : FullCard → List ValidationError
validate_skills card = check_skills 0 card.skills

unfoldable pub collect_warnings : FullCard → String → List String
collect_warnings card spec_version =
    if is_set card.state_transition_history && (spec_version == "1.0" || spec_version == "")
    then "stateTransitionHistory is deprecated in v1.0" ∷ []
    else []

-- sort.Strings
abbrev pub insert_string : String → List String → List String
insert_string s [] = s ∷ []
insert_string s (t ∷ ts) = elim (compare s t) [
  | Ordering.gt ↦ t ∷ insert_string s ts
  | _ ↦ s ∷ t ∷ ts
]

abbrev pub sort_strings : List String → List String
sort_strings [] = []
sort_strings (s ∷ ss) = insert_string s (sort_strings ss)

-- What json.Unmarshal makes of a card.
pub data Unmarshalled : Type 0 where
  read : FullCard → Unmarshalled
  failed : (err : String) → Unmarshalled

-- json.Unmarshal into a card, into a map (its keys), and into an array of objects with a type.
pub record Json : Type 0 where
  pub unmarshal_card : Text → Unmarshalled
  pub unmarshal_map : Text → Option (List String)
  pub unmarshal_types : Text → Option (List String)

module _ (json : Json) where
  abbrev pub preview_names : Option (List String) → Option (List String) → Option (List String)
  preview_names (some names) types = some (sort_strings names)
  preview_names none types = types

  unfoldable pub build_security_preview_names : Text → Option (List String)
  build_security_preview_names raw =
      if is_empty raw
      then none
      else preview_names (json.unmarshal_map raw) (json.unmarshal_types raw)

  abbrev pub binding_or_url : FullInterface → String
  binding_or_url iface = if iface.binding == "" then iface.url else iface.binding

  unfoldable pub build_preview : FullCard → String → ValidationPreview
  build_preview card spec_version = record {
    display_name = card.name;
    description = card.description;
    protocol = "a2a";
    spec_version = spec_version;
    skills_count = length card.skills;
    extensions_count = length (extensions_of card.capabilities);
    security_schemes = build_security_preview_names card.security_schemes;
    interfaces = map binding_or_url card.supported_interfaces;
  }

  abbrev pub result_of : FullCard → List ValidationError → ValidationResult
  result_of card [] = record {
    valid = true;
    spec_version = detect_spec_version card;
    errors = [];
    warnings = collect_warnings card (detect_spec_version card);
    preview = some (build_preview card (detect_spec_version card));
  }
  result_of card (e ∷ errs) = record {
    valid = false;
    spec_version = detect_spec_version card;
    errors = e ∷ errs;
    warnings = collect_warnings card (detect_spec_version card);
    preview = none;
  }

  abbrev pub validate_unmarshalled : Unmarshalled → ValidationResult
  validate_unmarshalled (failed err) = record {
    valid = false;
    spec_version = "";
    errors = record { field = codes "json"; message = codes "invalid JSON: " ++ codes err } ∷ [];
    warnings = [];
    preview = none;
  }
  validate_unmarshalled (read card) =
      result_of card (validate_required_fields card ++ validate_skills card)

  unfoldable pub validate_card : Text → ValidationResult
  validate_card raw = validate_unmarshalled (json.unmarshal_card raw)
