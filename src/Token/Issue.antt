-- ===== src/Token/Issue.antt =====
-- auth/token/: tokens that GenerateToken issues, validated, refreshed too late, and the API keys.
use eidola.Common.{
  ℕ, ◌+◌, ◌/◌, ◌≤◌, ◌<◌, String, ◌≡◌, refl, sym, ap, subst, ◌∙◌, ◌≢◌, ◌⊎◌, inl, inr, true, false,
  Option, none, some, arith, eq_iff, eq_refl, ◌==◌, if◌then◌else◌,
}
use eidola.Common.Dict.{get-assign}
use eidola.Token.Store.{
  User, Error, err_invalid_token, err_token_expired, is_token_valid, get_token_by_refresh,
  get_token_by_id, found, store_token, stamped,
}
use eidola.Token.Blacklist.{second, is_blacklisted}
use eidola.Token.Claims.{Codec, TokenClaims, read_token, sign, sign_both}
use eidola.Token.Manager.{
  CustomTokenManager, TokenInfo, validate_claims, validate_token, refresh_found, refresh_token,
  generate_token, generate_as, store_signed, token_data, claims_of, user_of,
}
use eidola.Token.Service.{TokenServiceOptions, generate_api_key}
use eidola.Token.Encoding.{Dotless, Lawful, split_dot-none, read_token-sign}

-- How long a token for the duration lasts.
abbrev pub lasts : CustomTokenManager → ℕ → ℕ
lasts m duration = if duration == 0 then m.default_duration else duration

module _ (codec : Codec) where
  -- GenerateAPIKey leaves a manager that refuses the key, as an invalid token, at any time,
  -- since the encoding of random bytes has no dot.
  api_key-refused :
      (o : TokenServiceOptions) (m : CustomTokenManager) (user_id key : String)
      (duration now later : ℕ) (id refresh_id : Option String)
      → Dotless codec
      → (validate_token codec
          (generate_api_key codec o m user_id duration now (some key) id refresh_id).0
          (codec.encode key)
          later).1
        ≡ inl err_invalid_token
  unfolding validate_token validate_claims read_token
  api_key-refused o m user_id key duration now later id refresh_id law =
      ground (arith, split_dot-none (codec.encode key) (law key))

  stored-late :
      (m : CustomTokenManager) (user : User) (id : String) (now expires_at later : ℕ)
      (q : Error ⊎ (String × String)) (i r : Option String) (info : TokenInfo)
      → (store_signed codec m user id now expires_at q).1 ≡ inr info
      → info.refresh_token ≢ ""
      → info.expires_at / second < later / second
      → (refresh_token codec
          (store_signed codec m user id now expires_at q).0
          info.refresh_token
          later
          i
          r).1
        ≡ inl err_token_expired
  unfolding refresh_token refresh_found store_signed token_data store_token stamped
      get_token_by_refresh get_token_by_id found
  stored-late m user id now expires_at later (inl e) i r info h ne late = ground arith
  stored-late m user id now expires_at later (inr (t, f)) i r info h ne late = ground (
    arith,
    eq_iff f "",
    eq_iff info.refresh_token "",
    eq_refl id,
    eq_refl f,
    get-assign m.token_store.refresh_tokens f id f,
    get-assign m.token_store.tokens id
        (stamped (token_data codec user t f expires_at id) (now / second)) id,
  )

  -- The refresh token of a token that GenerateToken issued, if it is not empty, is refused as
  -- expired by the manager as it leaves it, once the second in which the access token expires
  -- is over.
  generate-refresh_late :
      (m : CustomTokenManager) (user : User) (duration now later : ℕ)
      (id refresh_id i r : Option String) (info : TokenInfo)
      → (generate_token codec m user duration now id refresh_id).1 ≡ inr info
      → info.refresh_token ≢ ""
      → info.expires_at / second < later / second
      → (refresh_token codec
          (generate_token codec m user duration now id refresh_id).0
          info.refresh_token
          later
          i
          r).1
        ≡ inl err_token_expired
  unfolding generate_token generate_as
  generate-refresh_late m user duration now later none refresh_id i r info h ne late = ground arith
  generate-refresh_late m user duration now later (some id) refresh_id i r info h ne late =
      let d = if duration == 0 then m.default_duration else duration in
      stored-late m user id now (now + d) later
        (sign_both codec (claims_of codec m user id now (now + d)) refresh_id) i r info h ne late

  stored-valid :
      (m : CustomTokenManager) (user : User) (id : String) (now expires_at later : ℕ)
      (q : Error ⊎ (String × String)) (info : TokenInfo)
      → (store_signed codec m user id now expires_at q).1 ≡ inr info
      → later / second ≤ info.expires_at / second
      → (is_token_valid
            (store_signed codec m user id now expires_at q).0.token_store
            id
            (later / second)
          ≡ true)
        × ((store_signed codec m user id now expires_at q).0.blacklist ≡ m.blacklist)
        × (info.expires_at ≡ expires_at)
        × (q ≡ inr (info.access_token, info.refresh_token))
  unfolding store_signed token_data store_token stamped is_token_valid
  stored-valid m user id now expires_at later (inl e) info h early = ground arith
  stored-valid m user id now expires_at later (inr (t, f)) info h early = ground (
    arith,
    eq_refl id,
    get-assign m.token_store.tokens id
        (stamped (token_data codec user t f expires_at id) (now / second)) id,
  )

  sign_both-sign :
      (claims : TokenClaims) (refresh_id : Option String) (t f : String)
      → sign_both codec claims refresh_id ≡ inr (t, f)
      → sign codec claims ≡ inr t
  unfolding sign_both
  sign_both-sign claims refresh_id t f h = ground arith

  validate-read :
      (m : CustomTokenManager) (t : String) (claims : TokenClaims) (later : ℕ)
      → read_token codec true t ≡ inr claims
      → later / second ≤ claims.expires_at
      → (is_blacklisted m.blacklist claims.token_id later).1 ≡ false
      → is_token_valid m.token_store claims.token_id (later / second) ≡ true
      → t ≢ ""
      → (validate_token codec m t later).1 ≡ inr (user_of codec claims)
  unfolding validate_token validate_claims
  validate-read m t claims later r e b v ne = ground (arith, eq_iff t "")

  stored-validate :
      (m : CustomTokenManager) (user : User) (id : String) (now expires_at later : ℕ)
      (refresh_id : Option String) (q : Error ⊎ (String × String)) (info : TokenInfo)
      → Lawful codec (claims_of codec m user id now expires_at)
      → q ≡ sign_both codec (claims_of codec m user id now expires_at) refresh_id
      → (store_signed codec m user id now expires_at q).1 ≡ inr info
      → info.access_token ≢ ""
      → later / second ≤ info.expires_at / second
      → (is_blacklisted m.blacklist id later).1 ≡ false
      → (validate_token codec
          (store_signed codec m user id now expires_at q).0
          info.access_token
          later).1
        ≡ inr user
  unfolding user_of claims_of
  stored-validate m user id now expires_at later refresh_id q info law e h ne early bl =
      let v = stored-valid m user id now expires_at later q info h early in
      let s =
        sign_both-sign (claims_of codec m user id now expires_at) refresh_id info.access_token
          info.refresh_token (sym e ∙ v.3) in
      validate-read (store_signed codec m user id now expires_at q).0 info.access_token
        (claims_of codec m user id now expires_at) later
        (read_token-sign codec (claims_of codec m user id now expires_at) info.access_token law s)
        (subst (λ x. later / second ≤ x / second) v.2 early)
        (ap (λ b. (is_blacklisted b id later).1) v.1 ∙ bl) v.0 ne

  -- The manager as GenerateToken leaves it validates the new access token, if it is not empty,
  -- for its user until the second in which it expires, where its identifier is not on the
  -- blacklist and the encodings read back what they write.
  pub generate-validate :
      (m : CustomTokenManager) (user : User) (duration now later : ℕ) (id : String)
      (refresh_id : Option String) (info : TokenInfo)
      → Lawful codec (claims_of codec m user id now (now + lasts m duration))
      → (generate_token codec m user duration now (some id) refresh_id).1 ≡ inr info
      → info.access_token ≢ ""
      → later / second ≤ info.expires_at / second
      → (is_blacklisted m.blacklist id later).1 ≡ false
      → (validate_token codec
          (generate_token codec m user duration now (some id) refresh_id).0
          info.access_token
          later).1
        ≡ inr user
  unfolding generate_token generate_as
  generate-validate m user duration now later id refresh_id info law h ne early bl =
      let d = lasts m duration in
      stored-validate m user id now (now + d) later refresh_id
        (sign_both codec (claims_of codec m user id now (now + d)) refresh_id) info law refl h ne
        early bl
