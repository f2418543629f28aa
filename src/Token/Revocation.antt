-- ===== src/Token/Revocation.antt =====
-- auth/token/token.go: what becomes of a token that is revoked, or refreshed.
use eidola.Common.{
  ℕ, ◌+◌, ◌-◌, ◌*◌, ◌/◌, ◌≤◌, String, ◌≡◌, refl, ap, ◌∙◌, ◌≢◌, ◌⊎◌, inl, inr, true, false, Option,
  none, some, arith, str_eq, eq_iff, eq_refl, ◌==◌, if◌then◌else◌,
}
use eidola.Common.Dict.{get, get-assign}
use eidola.Token.Store.{
  User, TokenData, Error, err_user_not_found, wraps, InMemoryTokenStore, drop_refresh, revoke_found,
  revoke_token, is_token_valid, get_token_by_refresh, get_user_by_id, store_token, stamped,
  err_invalid_token,
}
use eidola.Token.Blacklist.{second, is_blacklisted}
use eidola.Token.Claims.{Codec, TokenClaims, check_signature, read_token, sign_both}
use eidola.Token.Manager.{
  CustomTokenManager, validate_claims, validate_token, bar, renew_for, replace, refresh_found,
  refresh_token, generate_token, generate_as, store_signed, token_data, revoke_stored,
  revoke_claims, revoke, claims_of,
}

revoked-not_valid_at :
    (s : InMemoryTokenStore) (token_id : String) (now : ℕ) (o : Option TokenData)
    → get s.tokens token_id ≡ o
    → is_token_valid (revoke_found s token_id o).0 token_id now ≡ false
unfolding is_token_valid revoke_found drop_refresh
revoked-not_valid_at s token_id now none h = ground arith
revoked-not_valid_at s token_id now (some t) h =
    ground
      (arith, eq_refl token_id, get-assign s.tokens token_id (record t { revoked = true }) token_id)

revoked-not_valid :
    (s : InMemoryTokenStore) (token_id : String) (now : ℕ)
    → is_token_valid (revoke_token s token_id).0 token_id now ≡ false
unfolding revoke_token
revoked-not_valid s token_id now = revoked-not_valid_at s token_id now (get s.tokens token_id) refl

module _ (codec : Codec) where
  read_token-unverified :
      (t : String) (claims : TokenClaims)
      → read_token codec true t ≡ inr claims
      → read_token codec false t ≡ inr claims
  unfolding read_token check_signature
  read_token-unverified t claims h = ground arith

  validate_revoked :
      (m : CustomTokenManager) (now : ℕ) (claims : TokenClaims) (user : User)
      → is_token_valid m.token_store claims.token_id (now / second) ≡ false
      → (validate_claims codec m now (inr claims)).1 ≢ inr user
  unfolding validate_claims
  validate_revoked m now claims user h = ground arith

  revoked_store_at :
      (m : CustomTokenManager) (claims : TokenClaims) (now later : ℕ)
      (q : InMemoryTokenStore × Option Error)
      → is_token_valid q.0 claims.token_id later ≡ false
      → is_token_valid (revoke_stored codec m claims now q).0.token_store claims.token_id later
        ≡ false
  unfolding revoke_stored bar
  revoked_store_at m claims now later (s, some e) h = h
  revoked_store_at m claims now later (s, none) h = h

  discriminate_inl : {e : Error} {user : User} → (inl e ≡ inr user) → ⊥
  discriminate_inl h = ground arith

  revoke-validate_read :
      (m : CustomTokenManager) (now later : ℕ) (user : User) (checked read : Error ⊎ TokenClaims)
      → ((claims : TokenClaims) → checked ≡ inr claims → read ≡ inr claims)
      → (validate_claims codec (revoke_claims codec m now read).0 later checked).1 ≢ inr user
  unfolding revoke_claims validate_claims
  revoke-validate_read m now later user (inl e) read h = λ q. discriminate_inl q
  revoke-validate_read m now later user (inr claims) read h = rw (h claims refl) (
      validate_revoked
        (revoke_stored codec m claims now (revoke_token m.token_store claims.token_id)).0 later
        claims user
        (revoked_store_at m claims now (later / second) (revoke_token m.token_store claims.token_id)
          (revoked-not_valid m.token_store claims.token_id (later / second))))

  -- The manager as RevokeToken of a token leaves it does not validate this token for any user
  -- at any time, whatever RevokeToken answered.
  pub revoke-validate :
      (m : CustomTokenManager) (t : String) (now later : ℕ) (user : User)
      → (validate_token codec (revoke codec m t now).0 t later).1 ≢ inr user
  unfolding validate_token revoke
  revoke-validate m t now later user =
      revoke-validate_read m now later user
        (if str_eq t "" then inl err_invalid_token else read_token codec true t)
        (read_token codec false t) (λ claims h. ground (arith, read_token-unverified t claims))

  stored-other :
      (m : CustomTokenManager) (user : User) (id : String) (now expires_at later : ℕ)
      (q : Error ⊎ (String × String)) (other : String)
      → id ≢ other
      → is_token_valid (store_signed codec m user id now expires_at q).0.token_store other later
        ≡ is_token_valid m.token_store other later
  unfolding store_signed store_token token_data is_token_valid
  stored-other m user id now expires_at later (inl e) other h = refl
  stored-other m user id now expires_at later (inr (t, r)) other h = ground (
    arith,
    eq_iff id other,
    get-assign m.token_store.tokens id
        (stamped (token_data codec user t r expires_at id) (now / second)) other,
  )

  -- Issuing a token leaves the others in the store as they are.
  generate-other :
      (m : CustomTokenManager) (user : User) (duration now later : ℕ)
      (id refresh_id : Option String) (other : String)
      → id ≢ some other
      → is_token_valid
          (generate_token codec m user duration now id refresh_id).0.token_store
          other
          later
        ≡ is_token_valid m.token_store other later
  unfolding generate_token generate_as
  generate-other m user duration now later none refresh_id other h = refl
  generate-other m user duration now later (some id) refresh_id other h =
      let d = if duration == 0 then m.default_duration else duration in
      stored-other m user id now (now + d) later
        (sign_both codec (claims_of codec m user id now (now + d)) refresh_id) other
        (λ e. h (ap some e))

  renewed-other :
      (m : CustomTokenManager) (now later : ℕ) (id refresh_id : Option String) (u : Error ⊎ User)
      (other : String)
      → id ≢ some other
      → is_token_valid m.token_store other later ≡ false
      → is_token_valid (renew_for codec m now id refresh_id u).0.token_store other later ≡ false
  unfolding renew_for
  renewed-other m now later id refresh_id (inl e) other h v = v
  renewed-other m now later id refresh_id (inr user) other h v =
      generate-other m user m.default_duration now later id refresh_id other h ∙ v

  replace-revokes :
      (m : CustomTokenManager) (old : TokenData) (now later : ℕ) (id refresh_id : Option String)
      (q : InMemoryTokenStore × Option Error)
      → id ≢ some old.token_id
      → is_token_valid q.0 old.token_id later ≡ false
      → is_token_valid (replace codec m old now id refresh_id q).0.token_store old.token_id later
        ≡ false
  unfolding replace bar
  replace-revokes m old now later id refresh_id (s, some e) h v = v
  replace-revokes m old now later id refresh_id (s, none) h v =
      renewed-other
        (bar codec (record m { token_store = s }) old.token_id
          ((old.expires_at - now / second) * second) now)
        now later id refresh_id (get_user_by_id s old.user_id) old.token_id h v

  -- When a refresh token that is not empty belongs to a token that is neither expired nor on
  -- the blacklist, that token is not valid in the store after RefreshToken, whatever the
  -- answer, if the new identifier is another.
  refresh-revokes :
      (m : CustomTokenManager) (r : String) (now later : ℕ) (id refresh_id : Option String)
      (old : TokenData)
      → get_token_by_refresh m.token_store r ≡ inr old
      → r ≢ ""
      → now / second ≤ old.expires_at
      → (is_blacklisted m.blacklist old.token_id now).1 ≡ false
      → id ≢ some old.token_id
      → is_token_valid (refresh_token codec m r now id refresh_id).0.token_store old.token_id later
        ≡ false
  unfolding refresh_token refresh_found
  refresh-revokes m r now later id refresh_id old g ne ex bl fresh = ground (
    arith,
    eq_iff r "",
    replace-revokes (record m { blacklist = (is_blacklisted m.blacklist old.token_id now).0 }) old
        now later id refresh_id (revoke_token m.token_store old.token_id) fresh
        (revoked-not_valid m.token_store old.token_id later),
  )

  replace-unknown :
      (m : CustomTokenManager) (old : TokenData) (now : ℕ) (id refresh_id : Option String)
      (q : InMemoryTokenStore × Option Error)
      → q.1 ≡ none
      → get q.0.users old.user_id ≡ none
      → (replace codec m old now id refresh_id q).1 ≡ inl (wraps err_user_not_found)
  unfolding replace renew_for get_user_by_id
  replace-unknown m old now id refresh_id (s, some e) h v = ground arith
  replace-unknown m old now id refresh_id (s, none) h v = ground arith

  users-revoke :
      (s : InMemoryTokenStore) (token_id : String) → (revoke_token s token_id).0.users ≡ s.users
  unfolding revoke_token revoke_found drop_refresh
  users-revoke s token_id = ground arith

  -- A refresh for a user whom the store does not know fails, though the token it would replace is
  -- neither expired nor on the blacklist.
  refresh-unknown_user :
      (m : CustomTokenManager) (r : String) (now : ℕ) (id refresh_id : Option String)
      (old : TokenData)
      → get_token_by_refresh m.token_store r ≡ inr old
      → r ≢ ""
      → now / second ≤ old.expires_at
      → (is_blacklisted m.blacklist old.token_id now).1 ≡ false
      → (revoke_token m.token_store old.token_id).1 ≡ none
      → get m.token_store.users old.user_id ≡ none
      → (refresh_token codec m r now id refresh_id).1 ≡ inl (wraps err_user_not_found)
  unfolding refresh_token refresh_found
  refresh-unknown_user m r now id refresh_id old g ne ex bl rev unk = ground (
    arith,
    eq_iff r "",
    users-revoke m.token_store old.token_id,
    replace-unknown (record m { blacklist = (is_blacklisted m.blacklist old.token_id now).0 }) old
        now id refresh_id (revoke_token m.token_store old.token_id) rev,
  )
