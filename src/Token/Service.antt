-- ===== src/Token/Service.antt =====
-- auth/token/service.go, TokenService over a CustomTokenManager. The authenticator and the extractor
-- are called before the functions here, which take their results.
use eidola.Common.{
  ℕ, String, ◌⊎◌, inl, inr, Bool, Option, none, some, [], ◌∷◌, str_eq, ◌==◌, if◌then◌else◌,
}
use eidola.Token.Store.{User, Error, err_invalid_token}
use eidola.Token.Claims.{Codec}
use eidola.Token.Manager.{
  CustomTokenManager, TokenInfo, generate_token, validate_token, refresh_token, revoke,
}
use eidola.Token.Store.{no_random, err_permission_denied, authorizer_not_set}

pub record TokenServiceOptions : Type 0 where
  pub access_token_duration : ℕ
  pub refresh_token_duration : ℕ
  pub enable_refresh_token_rotation : Bool
  pub enable_token_revocation : Bool
  pub token_type : String

-- The defaults that NewTokenService puts in: an hour, seven days and "Bearer".
unfoldable pub complete : TokenServiceOptions → TokenServiceOptions
complete o = record o {
  access_token_duration =
      if o.access_token_duration == 0 then 3600000000000 else o.access_token_duration;
  refresh_token_duration =
      if o.refresh_token_duration == 0 then 604800000000000 else o.refresh_token_duration;
  token_type = if str_eq o.token_type "" then "Bearer" else o.token_type;
}

module _ (codec : Codec) (o : TokenServiceOptions) where
  unfoldable pub login :
      CustomTokenManager
      → Error ⊎ User
      → ℕ
      → Option String
      → Option String
      → CustomTokenManager × (Error ⊎ TokenInfo)
  login m (inl e) now id refresh_id = (m, inl e)
  login m (inr user) now id refresh_id =
      generate_token codec m user o.access_token_duration now id refresh_id

  unfoldable pub refresh :
      CustomTokenManager
      → String
      → ℕ
      → Option String
      → Option String
      → CustomTokenManager × (Error ⊎ TokenInfo)
  refresh m token now id refresh_id =
      if str_eq token ""
      then (m, inl err_invalid_token)
      else refresh_token codec m token now id refresh_id

  unfoldable pub validate :
      CustomTokenManager → Error ⊎ String → ℕ → CustomTokenManager × (Error ⊎ User)
  validate m (inl e) now = (m, inl e)
  validate m (inr token) now = validate_token codec m token now

  unfoldable pub logout_with :
      CustomTokenManager → Error ⊎ String → ℕ → CustomTokenManager × Option Error
  logout_with m (inl e) now = (m, some e)
  logout_with m (inr token) now = revoke codec m token now

  unfoldable pub logout :
      CustomTokenManager → Error ⊎ String → ℕ → CustomTokenManager × Option Error
  logout m extracted now =
      if o.enable_token_revocation then logout_with m extracted now else (m, none)

  -- What the authorizer answers, on a validated user.
  unfoldable pub decide : (User → Error ⊎ Bool) → Error ⊎ User → Option Error
  decide authorizer (inl e) = some e
  decide authorizer (inr user) = elim (authorizer user) [
    | inl e ↦ some e
    | inr allowed ↦ if allowed then none else some err_permission_denied
  ]

  unfoldable pub check_permission :
      CustomTokenManager
      → Option (User → Error ⊎ Bool)
      → Error ⊎ String
      → ℕ
      → CustomTokenManager × Option Error
  check_permission m none extracted now = (m, some authorizer_not_set)
  check_permission m (some authorizer) extracted now =
      ((validate m extracted now).0, decide authorizer (validate m extracted now).1)

  unfoldable pub api_user : String → User
  api_user user_id = record {
    id = user_id;
    username = "api-key";
    roles = "api" ∷ [];
    permissions = [];
    metadata = [];
  }

  unfoldable pub answer_key : String → Error ⊎ TokenInfo → Error ⊎ String
  answer_key api_key (inl e) = inl e
  answer_key api_key (inr info) = inr api_key

  -- `key` is the result of rand.Read.
  unfoldable pub generate_api_key :
      CustomTokenManager
      → String
      → ℕ
      → ℕ
      → Option String
      → Option String
      → Option String
      → CustomTokenManager × (Error ⊎ String)
  generate_api_key m user_id duration now none id refresh_id = (m, inl no_random)
  generate_api_key m user_id duration now (some key) id refresh_id =
      let generated =
        generate_token codec m (api_user user_id)
          (if duration == 0 then o.access_token_duration else duration) now id refresh_id in
      (generated.0, answer_key (codec.encode key) generated.1)
