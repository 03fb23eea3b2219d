-- ===== src/AgentMetadata.antt =====
-- panel/internal/agentcontrol/metadata.go: what an agent says of itself. The JSON text of the
-- capabilities is the list that it holds. An identifier's characters are all ASCII, so the order of its
-- bytes, which sort.Strings uses, is that of its code points.
pub mod Canonical
mod Tests
use vps_panel.Prelude.{
  ℕ, ◌+◌, Bool, true, false, ◌&&◌, ◌||◌, not, List, [], ◌∷◌, ltb, leb, ◌==◌, if◌then◌else◌, length,
  any, Result, ok, err, ◌>>=◌,
}
use vps_panel.Prelude.Int.{ℤ, pos, negsuc}
use vps_panel.Prelude.Text.{Text, byte_length, codes, text_eq, trim_space}

pub data Error : Type 0 where
  invalid_agent_version unsupported_agent_api invalid_agent_metadata implementation_mismatch : Error

-- Metadata
pub record Metadata : Type 0 where
  pub implementation : Text
  pub version : Text
  pub api_version : ℤ
  pub capabilities : List Text

abbrev pub is_api : ℕ → ℤ → Bool
is_api n (pos m) = m == n
is_api n (negsuc m) = false

abbrev pub current_api : ℕ
current_api = 1

abbrev pub max_implementation_length : ℕ
max_implementation_length = 128

abbrev pub max_capabilities : ℕ
max_capabilities = 64

abbrev pub max_capability_length : ℕ
max_capability_length = 64

abbrev pub is_identifier_code : ℕ → Bool
is_identifier_code c =
    (leb b'a' c && leb c b'z') || (leb b'0' c && leb c b'9') || c == b'.' || c == b'_' || c == b'-'

abbrev pub all_codes : Text → Bool
all_codes [] = true
all_codes (c ∷ s) = is_identifier_code c && all_codes s

abbrev pub is_empty : Text → Bool
is_empty [] = true
is_empty (c ∷ s) = false

unfoldable pub valid_metadata_identifier : Text → Bool
valid_metadata_identifier s = all_codes s && not (is_empty s)

unfoldable pub text_before : Text → Text → Bool
text_before [] [] = false
text_before [] (b ∷ t) = true
text_before (a ∷ s) [] = false
text_before (a ∷ s) (b ∷ t) = if a == b then text_before s t else ltb a b

-- The map that drops what occurs twice, and its keys sorted.
unfoldable pub insert_unique : Text → List Text → List Text
insert_unique s [] = s ∷ []
insert_unique s (t ∷ ts) =
    let rest = insert_unique s ts in
    if text_eq s t then t ∷ ts else if text_before s t then s ∷ t ∷ ts else t ∷ rest

abbrev pub is_capability : Text → Bool
is_capability s =
    not
      (is_empty s || ltb max_capability_length (byte_length s) || not (valid_metadata_identifier s))

unfoldable pub unique_sorted : List Text → Result Error (List Text)
unfolding insert_unique
unique_sorted [] = ok []
unique_sorted (s ∷ ss) =
    let rest = unique_sorted ss in
    if is_capability (trim_space s)
    then (rest >>= λ ts. ok (insert_unique (trim_space s) ts))
    else err invalid_agent_metadata

unfoldable pub normalize_capabilities : List Text → Result Error (List Text)
unfolding unique_sorted
normalize_capabilities values =
    if ltb max_capabilities (length values)
    then err invalid_agent_metadata
    else unique_sorted values

abbrev bad_implementation : Text → Bool
bad_implementation s =
    not (is_empty s)
    && (ltb max_implementation_length (byte_length s) || not (valid_metadata_identifier s))

-- NormalizeMetadata
unfoldable pub normalize_metadata : Metadata → Result Error Metadata
unfolding normalize_capabilities
normalize_metadata value =
    let implementation = trim_space value.implementation in
    let version = trim_space value.version in
    let legacy = is_api 0 value.api_version in
    let current = is_api current_api value.api_version in
    if ltb 64 (length version)
    then err invalid_agent_version
    else if not legacy && not current
    then err unsupported_agent_api
    else if current && is_empty version
    then err invalid_agent_version
    else if legacy && not (is_empty implementation)
    then err invalid_agent_metadata
    else if current && is_empty implementation
    then err invalid_agent_metadata
    else if bad_implementation implementation
    then err invalid_agent_metadata
    else (normalize_capabilities value.capabilities >>= λ capabilities. ok (record value {
      implementation = implementation;
      version = version;
      capabilities = capabilities;
    }))

unfoldable pub declares_capability : Metadata → Text → Bool
declares_capability value capability =
    if is_empty value.implementation || not (is_api current_api value.api_version)
    then false
    else any (λ c. text_eq c capability) value.capabilities

unfoldable pub supports_capability : Metadata → Text → Bool
unfolding declares_capability
supports_capability value capability =
    if is_empty value.implementation && is_api 0 value.api_version
    then true
    else declares_capability value capability

unfoldable pub can_self_upgrade : Text → ℤ → List Text → Bool
can_self_upgrade implementation api_version capabilities =
    if is_empty implementation && is_api 0 api_version
    then true
    else if not (text_eq implementation (codes "vps-panel-agent"))
        || not (is_api current_api api_version)
    then false
    else any (λ c. text_eq c (codes "self_upgrade")) capabilities

-- ValidateImplementationMatch
unfoldable pub implementation_matches : Text → Text → Bool
implementation_matches stored connected = is_empty stored || text_eq stored connected
