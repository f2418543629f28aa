-- ===== src/Token/Manager.antt =====
-- auth/token/token.go, CustomTokenManager over the stores in memory, which NewCustomTokenManager
-- puts in by default. Strings stand for slices of bytes too. Times are in nanoseconds, those that
-- Unix gives in seconds.
use eidola.Common.{
  ℕ, ◌+◌, ◌-◌, ◌*◌, ◌/◌, String, ◌⊎◌, inl, inr, true, false, Option, none, some, str_eq, ltb, ◌==◌,
  if◌then◌else◌,
}
use eidola.Token.Store.{
  User, TokenData, Error, err_invalid_token, err_token_expired, err_token_revoked, no_random, wraps,
  InMemoryTokenStore, store_token, get_token_by_refresh, revoke_token, is_token_valid,
  get_user_by_id, cleanup_expired_tokens,
}
use eidola.Token.Claims.{or_error, TokenClaims, Codec, sign_both, read_token}
use eidola.Token.Blacklist.{
  InMemoryBlacklist, second, add_to_blacklist, is_blacklisted, cleanup_expired,
}

pub record TokenInfo : Type 0 where
  pub access_token : String
  pub refresh_token : String
  pub expires_at : ℕ
  pub token_type : String

pub record CustomTokenManager : Type 0 where
  pub default_duration : ℕ
  pub issuer : String
  pub token_store : InMemoryTokenStore
  pub blacklist : InMemoryBlacklist

module _ (codec : Codec) where
  unfoldable pub claims_of : CustomTokenManager → User → String → ℕ → ℕ → TokenClaims
  claims_of m user token_id now expires_at = record {
    user_id = user.id;
    username = user.username;
    roles = user.roles;
    permissions = user.permissions;
    metadata = user.metadata;
    token_id = token_id;
    issued_at = now / second;
    expires_at = expires_at / second;
    issuer = m.issuer;
  }

  unfoldable pub token_data : User → String → String → ℕ → String → TokenData
  token_data user token refresh_token_id expires_at token_id = record {
    access_token = token;
    refresh_token = refresh_token_id;
    user_id = user.id;
    expires_at = expires_at / second;
    token_id = token_id;
    revoked = false;
    created_at = 0;
  }

  unfoldable pub store_signed :
      CustomTokenManager
      → User
      → String
      → ℕ
      → ℕ
      → Error ⊎ (String × String)
      → CustomTokenManager × (Error ⊎ TokenInfo)
  store_signed m user token_id now expires_at (inl e) = (m, inl e)
  store_signed m user token_id now expires_at (inr (token, refresh_token_id)) = (
    record m {
      token_store =
          store_token m.token_store (token_data user token refresh_token_id expires_at token_id)
            (now / second);
    },
    inr (record {
      access_token = token;
      refresh_token = refresh_token_id;
      expires_at = expires_at;
      token_type = "Bearer";
    }),
  )

  unfoldable pub generate_as :
      CustomTokenManager
      → User
      → ℕ
      → ℕ
      → Error ⊎ String
      → Option String
      → CustomTokenManager × (Error ⊎ TokenInfo)
  generate_as m user duration now (inl e) refresh_id = (m, inl e)
  generate_as m user duration now (inr token_id) refresh_id =
      let expires_at = now + duration in
      store_signed m user token_id now expires_at
        (sign_both codec (claims_of m user token_id now expires_at) refresh_id)

  -- `id` and `refresh_id` are the results of the two calls of generateRandomTokenID.
  unfoldable pub generate_token :
      CustomTokenManager
      → User
      → ℕ
      → ℕ
      → Option String
      → Option String
      → CustomTokenManager × (Error ⊎ TokenInfo)
  generate_token m user duration now id refresh_id =
      generate_as m user (if duration == 0 then m.default_duration else duration) now
        (or_error (wraps no_random) id) refresh_id

  unfoldable pub user_of : TokenClaims → User
  user_of claims = record {
    id = claims.user_id;
    username = claims.username;
    roles = claims.roles;
    permissions = claims.permissions;
    metadata = claims.metadata;
  }

  unfoldable pub validate_claims :
      CustomTokenManager → ℕ → Error ⊎ TokenClaims → CustomTokenManager × (Error ⊎ User)
  validate_claims m now (inl e) = (m, inl e)
  validate_claims m now (inr claims) =
      let asked = is_blacklisted m.blacklist claims.token_id now in
      if ltb claims.expires_at (now / second) then (m, inl err_token_expired) else (
        record m { blacklist = asked.0 },
        if asked.1
            then inl err_token_revoked
            else if is_token_valid m.token_store claims.token_id (now / second)
            then inr (user_of claims)
            else inl err_token_revoked,
      )

  unfoldable pub validate_token :
      CustomTokenManager → String → ℕ → CustomTokenManager × (Error ⊎ User)
  validate_token m token_string now =
      validate_claims m now (
        if str_eq token_string ""
        then inl err_invalid_token
        else read_token codec true token_string)

  unfoldable pub bar : CustomTokenManager → String → ℕ → ℕ → CustomTokenManager
  bar m token_id duration now = record m {
    blacklist = add_to_blacklist m.blacklist token_id duration now;
  }

  unfoldable pub renew_for :
      CustomTokenManager
      → ℕ
      → Option String
      → Option String
      → Error ⊎ User
      → CustomTokenManager × (Error ⊎ TokenInfo)
  renew_for m now id refresh_id (inl e) = (m, inl (wraps e))
  renew_for m now id refresh_id (inr user) =
      generate_token m user m.default_duration now id refresh_id

  unfoldable pub replace :
      CustomTokenManager
      → TokenData
      → ℕ
      → Option String
      → Option String
      → InMemoryTokenStore × Option Error
      → CustomTokenManager × (Error ⊎ TokenInfo)
  replace m old now id refresh_id (s, some e) = (record m { token_store = s }, inl (wraps e))
  replace m old now id refresh_id (s, none) =
      renew_for
        (bar (record m { token_store = s }) old.token_id ((old.expires_at - now / second) * second)
          now)
        now id refresh_id (get_user_by_id s old.user_id)

  unfoldable pub refresh_found :
      CustomTokenManager
      → ℕ
      → Option String
      → Option String
      → Error ⊎ TokenData
      → CustomTokenManager × (Error ⊎ TokenInfo)
  refresh_found m now id refresh_id (inl e) = (m, inl (wraps e))
  refresh_found m now id refresh_id (inr old) =
      let asked = is_blacklisted m.blacklist old.token_id now in
      let m1 = record m { blacklist = asked.0 } in
      if ltb old.expires_at (now / second)
      then (m, inl err_token_expired)
      else if asked.1
      then (m1, inl err_token_revoked)
      else replace m1 old now id refresh_id (revoke_token m.token_store old.token_id)

  unfoldable pub refresh_token :
      CustomTokenManager
      → String
      → ℕ
      → Option String
      → Option String
      → CustomTokenManager × (Error ⊎ TokenInfo)
  refresh_token m refresh now id refresh_id =
      if str_eq refresh ""
      then (m, inl err_invalid_token)
      else refresh_found m now id refresh_id (get_token_by_refresh m.token_store refresh)

  unfoldable pub revoke_stored :
      CustomTokenManager
      → TokenClaims
      → ℕ
      → InMemoryTokenStore × Option Error
      → CustomTokenManager × Option Error
  revoke_stored m claims now (s, some e) = (record m { token_store = s }, some e)
  revoke_stored m claims now (s, none) =
      let left = (claims.expires_at - now / second) * second in
      (
        bar (record m { token_store = s }) claims.token_id
            (if left == 0 then 86400 * second else left) now,
        none,
      )

  unfoldable pub revoke_claims :
      CustomTokenManager → ℕ → Error ⊎ TokenClaims → CustomTokenManager × Option Error
  revoke_claims m now (inl e) = (m, some e)
  revoke_claims m now (inr claims) =
      revoke_stored m claims now (revoke_token m.token_store claims.token_id)

  -- RevokeToken of the manager, which does not verify the signature.
  unfoldable pub revoke : CustomTokenManager → String → ℕ → CustomTokenManager × Option Error
  revoke m token_string now = revoke_claims m now (read_token codec false token_string)

  unfoldable pub cleanup : CustomTokenManager → ℕ → CustomTokenManager
  cleanup m now = record m {
    token_store = cleanup_expired_tokens m.token_store (now / second);
    blacklist = cleanup_expired m.blacklist now;
  }
