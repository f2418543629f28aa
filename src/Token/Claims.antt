-- ===== src/Token/Claims.antt =====
-- auth/token/token.go, TokenClaims: the claims, and the strings of the tokens that carry them.
-- Strings stand for slices of bytes too.
use eidola.Common.{
  ℕ, String, ◌⊎◌, inl, inr, Bool, true, false, Option, none, some, List, ◌==◌, if◌then◌else◌,
}
use Prim.Native.Char.{Char, code}
use Prim.Native.String.{◌++◌ as ◌++ₛ◌}
use eidola.Common.Dict.{Dict}
use eidola.Token.Store.{Error, err_invalid_token, no_random, no_payload, no_signature, wraps}

infixl 5 ◌>>=◌
abbrev pub ◌>>=◌ : {A B : Type 0} → Error ⊎ A → (A → Error ⊎ B) → Error ⊎ B
inl e >>= f = inl e
inr a >>= f = f a

abbrev pub or_error : {A : Type 0} → Error → Option A → Error ⊎ A
or_error e none = inl e
or_error e (some a) = inr a

abbrev pub guard : Bool → Error → Error ⊎ Unit {0}
guard true e = inr tt
guard false e = inl e

abbrev pub wrapped : {A : Type 0} → Error ⊎ A → Error ⊎ A
wrapped (inl e) = inl (wraps e)
wrapped (inr a) = inr a

pub record TokenClaims : Type 0 where
  pub user_id : String
  pub username : String
  pub roles : List String
  pub permissions : List String
  pub metadata : Dict String
  pub token_id : String
  pub issued_at : ℕ
  pub expires_at : ℕ
  pub issuer : String

-- json.Marshal and Unmarshal of claims, base64.RawURLEncoding, and the manager's Encryptor; none
-- and false are errors.
pub record Codec : Type 0 where
  pub marshal : TokenClaims → Option String
  pub unmarshal : String → Option TokenClaims
  pub encode : String → String
  pub decode : String → Option String
  pub encrypt : String → Option String
  pub verify : String → String → Bool

unfoldable pub has_dot : String → Bool
has_dot String.[] = false
has_dot (String.◌∷◌ c s) = if code c == b'.' then true else has_dot s

unfoldable pub in_front : Char → Option (String × String) → Option (String × String)
in_front c none = none
in_front c (some (a, b)) = some (String.◌∷◌ c a, b)

-- strings.Split(s, "."), if it has two parts.
unfoldable pub split_dot : String → Option (String × String)
split_dot String.[] = none
split_dot (String.◌∷◌ c s) =
    if code c == b'.'
    then (if has_dot s then none else some (String.[], s))
    else in_front c (split_dot s)

module _ (codec : Codec) where
  -- The string of an access token.
  unfoldable pub sign : TokenClaims → Error ⊎ String
  sign claims = do
    payload ← or_error (wraps no_payload) (codec.marshal claims)
    signature ← or_error (wraps no_signature) (codec.encrypt payload)
    inr (codec.encode payload ++ₛ ("." ++ₛ codec.encode signature))

  -- The access token, and then the refresh token.
  unfoldable pub sign_both : TokenClaims → Option String → Error ⊎ (String × String)
  unfolding sign
  sign_both claims refresh_id = do
    token ← sign claims
    refresh_token_id ← or_error (wraps no_random) refresh_id
    inr (token, refresh_token_id)

  unfoldable pub check_signature : Bool → String → String → Error ⊎ Unit {0}
  check_signature false payload part = inr tt
  check_signature true payload part = do
    signature ← or_error err_invalid_token (codec.decode part)
    guard (codec.verify payload signature) err_invalid_token

  -- The claims of a token, with its signature verified or not.
  unfoldable pub read_token : Bool → String → Error ⊎ TokenClaims
  unfolding check_signature
  read_token verified token_string = do
    parts ← or_error err_invalid_token (split_dot token_string)
    payload ← or_error err_invalid_token (codec.decode parts.0)
    checked ← check_signature verified payload parts.1
    or_error err_invalid_token (codec.unmarshal payload)
