-- ===== src/Auth/Extractor.antt =====
-- auth/extractor.go. The metadata of a context is absent or a map from lower-case keys to values;
-- strings.ToLower and strings.TrimSpace are parameters.
use eidola.Common.{
  String, ◌≡◌, ◌≢◌, ◌⊎◌, inl, inr, Option, none, some, List, [], ◌∷◌, arith, str_eq, eq_iff, ◌==◌,
  if◌then◌else◌,
}
use Prim.Native.Char.{code}
use Prim.Native.String.{◌++◌ as ◌++ₛ◌}
use text.Mathlib.TextLemmas.{cons-append as cons-append_text, nil-append as nil-append_text}
use eidola.Common.Dict.{Dict, get}

pub data ExtractError : Type 0 where
  err_no_token_found : ExtractError
  missing_prefix : String → ExtractError

pub record MetadataTokenExtractor : Type 0 where
  pub key : String
  pub prefix : String

unfoldable pub new_metadata_token_extractor : String → String → MetadataTokenExtractor
new_metadata_token_extractor key prefix = record {
  key = if str_eq key "" then "authorization" else key;
  prefix = prefix;
}

-- strings.TrimPrefix(s, prefix), if strings.HasPrefix(s, prefix).
unfoldable pub strip_prefix : String → String → Option String
strip_prefix String.[] s = some s
strip_prefix (String.◌∷◌ c p) String.[] = none
strip_prefix (String.◌∷◌ c p) (String.◌∷◌ d s) = if code c == code d then strip_prefix p s else none

abbrev pub first_value : Option (List String) → ExtractError ⊎ String
first_value none = inl err_no_token_found
first_value (some []) = inl err_no_token_found
first_value (some (v ∷ vs)) = inr v

module _ (to_lower trim_space : String → String) where
  unfoldable pub trimmed : String → ExtractError ⊎ String
  trimmed token =
      if str_eq (trim_space token) "" then inl err_no_token_found else inr (trim_space token)

  unfoldable pub strip : MetadataTokenExtractor → ExtractError ⊎ String → ExtractError ⊎ String
  strip e (inl err) = inl err
  strip e (inr token) =
      if str_eq e.prefix "" then trimmed token else elim (strip_prefix e.prefix token) [
        | none ↦ inl (missing_prefix e.prefix)
        | some t ↦ trimmed t
      ]

  unfoldable pub extract :
      MetadataTokenExtractor → Option (Dict (List String)) → ExtractError ⊎ String
  extract e none = inl err_no_token_found
  extract e (some md) = strip e (first_value (get md (to_lower e.key)))

-- CompositeTokenExtractor, over the results of its extractors in order.
unfoldable pub extract_from : ExtractError → List (ExtractError ⊎ String) → ExtractError ⊎ String
extract_from last_err [] = inl last_err
extract_from last_err (inr token ∷ rs) = inr token
extract_from last_err (inl err ∷ rs) = extract_from err rs

unfoldable pub extract_composite : List (ExtractError ⊎ String) → ExtractError ⊎ String
extract_composite rs = extract_from err_no_token_found rs

unfoldable pub extract_constant : String → ExtractError ⊎ String
extract_constant token = if str_eq token "" then inl err_no_token_found else inr token

strip_prefix-append : (p s : String) → strip_prefix p (p ++ₛ s) ≡ some s
unfolding strip_prefix
strip_prefix-append String.[] s = rw nil-append_text
strip_prefix-append (String.◌∷◌ c p) s =
    rw cons-append_text (ground (arith, strip_prefix-append p s))

-- The token after the prefix in the first value of the key is extracted, if there is no space
-- around it and it is not empty.
extract-append :
    (to_lower trim_space : String → String) (e : MetadataTokenExtractor) (md : Dict (List String))
    (token : String) (vs : List String)
    → get md (to_lower e.key) ≡ some ((e.prefix ++ₛ token) ∷ vs)
    → trim_space token ≡ token
    → token ≢ ""
    → extract to_lower trim_space e (some md) ≡ inr token
unfolding extract strip trimmed
extract-append to_lower trim_space e md token vs g t ne = ground (
  arith,
  eq_iff token "",
  eq_iff e.prefix "",
  nil-append_text token,
  strip_prefix-append e.prefix token,
)
