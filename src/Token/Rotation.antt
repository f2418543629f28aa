-- ===== src/Token/Rotation.antt =====
-- auth/token/token.go, RefreshToken: a refresh token serves once.
use eidola.Common.{
  ℕ, ◌+◌, ◌-◌, ◌*◌, ◌/◌, ◌≤◌, String, ◌≡◌, refl, ◌≢◌, ◌⊎◌, inl, inr, false, Option, none, some,
  arith, eq_iff, eq_refl, ◌==◌, if◌then◌else◌,
}
use eidola.Common.Dict.{get, get-assign, get-delete}
use eidola.Token.Store.{
  get_token_by_id, refresh_token_not_found, User, TokenData, Error, InMemoryTokenStore,
  drop_refresh, revoke_found, revoke_token, get_token_by_refresh, get_user_by_id, store_token,
}
use eidola.Token.Blacklist.{second, is_blacklisted}
use eidola.Token.Claims.{Codec, TokenClaims, sign_both}
use eidola.Token.Manager.{
  CustomTokenManager, bar, renew_for, replace, refresh_found, refresh_token, generate_token,
  generate_as, store_signed, token_data, claims_of,
}

removed_at :
    (s : InMemoryTokenStore) (r : String) (t : TokenData)
    → get s.tokens t.token_id ≡ some t
    → t.refresh_token ≡ r
    → r ≢ ""
    → (get (revoke_token s t.token_id).0.refresh_tokens r ≡ none)
      × ((revoke_token s t.token_id).1 ≡ none)
unfolding revoke_token revoke_found drop_refresh
removed_at s r t g e ne =
    ground
      (arith, eq_iff t.refresh_token "", eq_iff r "", eq_refl r, get-delete s.refresh_tokens r r)

not_linked :
    (s : InMemoryTokenStore) (r : String)
    → get s.refresh_tokens r ≡ none
    → get_token_by_refresh s r ≡ inl refresh_token_not_found
unfolding get_token_by_refresh get_token_by_id
not_linked s r h = ground arith

module _ (codec : Codec) where
  stored-unlinked :
      (m : CustomTokenManager) (user : User) (id : String) (now expires_at : ℕ)
      (q : Error ⊎ (String × String)) (r : String)
      → ((t f : String) → q ≡ inr (t, f) → f ≢ r)
      → get m.token_store.refresh_tokens r ≡ none
      → get (store_signed codec m user id now expires_at q).0.token_store.refresh_tokens r ≡ none
  unfolding store_signed store_token token_data
  stored-unlinked m user id now expires_at (inl e) r h v = v
  stored-unlinked m user id now expires_at (inr (t, f)) r h v =
      ground (arith, h t f refl, eq_iff f r, get-assign m.token_store.refresh_tokens f id r)

  sign_both-refresh :
      (claims : TokenClaims) (refresh_id : Option String) (t f r : String)
      → refresh_id ≢ some r
      → sign_both codec claims refresh_id ≡ inr (t, f)
      → f ≢ r
  unfolding sign_both
  sign_both-refresh claims refresh_id t f r h e = ground arith

  generate-unlinked :
      (m : CustomTokenManager) (user : User) (duration now : ℕ) (id refresh_id : Option String)
      (r : String)
      → refresh_id ≢ some r
      → get m.token_store.refresh_tokens r ≡ none
      → get (generate_token codec m user duration now id refresh_id).0.token_store.refresh_tokens r
        ≡ none
  unfolding generate_token generate_as
  generate-unlinked m user duration now none refresh_id r h v = v
  generate-unlinked m user duration now (some id) refresh_id r h v =
      let d = if duration == 0 then m.default_duration else duration in
      stored-unlinked m user id now (now + d)
        (sign_both codec (claims_of codec m user id now (now + d)) refresh_id) r
        (λ t f e. sign_both-refresh (claims_of codec m user id now (now + d)) refresh_id t f r h e)
        v

  renewed-unlinked :
      (m : CustomTokenManager) (now : ℕ) (id refresh_id : Option String) (u : Error ⊎ User)
      (r : String)
      → refresh_id ≢ some r
      → get m.token_store.refresh_tokens r ≡ none
      → get (renew_for codec m now id refresh_id u).0.token_store.refresh_tokens r ≡ none
  unfolding renew_for
  renewed-unlinked m now id refresh_id (inl e) r h v = v
  renewed-unlinked m now id refresh_id (inr user) r h v =
      generate-unlinked m user m.default_duration now id refresh_id r h v

  replaced-unlinked :
      (m : CustomTokenManager) (old : TokenData) (now : ℕ) (id refresh_id : Option String)
      (q : InMemoryTokenStore × Option Error) (r : String)
      → refresh_id ≢ some r
      → get q.0.refresh_tokens r ≡ none
      → get (replace codec m old now id refresh_id q).0.token_store.refresh_tokens r ≡ none
  unfolding replace bar
  replaced-unlinked m old now id refresh_id (s, some e) r h v = v
  replaced-unlinked m old now id refresh_id (s, none) r h v =
      renewed-unlinked
        (bar codec (record m { token_store = s }) old.token_id
          ((old.expires_at - now / second) * second) now)
        now id refresh_id (get_user_by_id s old.user_id) r h v

  refresh-unlinked :
      (m : CustomTokenManager) (r : String) (now : ℕ) (id refresh_id : Option String)
      (old : TokenData)
      → get_token_by_refresh m.token_store r ≡ inr old
      → get m.token_store.tokens old.token_id ≡ some old
      → old.refresh_token ≡ r
      → r ≢ ""
      → now / second ≤ old.expires_at
      → (is_blacklisted m.blacklist old.token_id now).1 ≡ false
      → refresh_id ≢ some r
      → get (refresh_token codec m r now id refresh_id).0.token_store.refresh_tokens r ≡ none
  unfolding refresh_token refresh_found
  refresh-unlinked m r now id refresh_id old g own e ne ex bl fresh = ground (
    arith,
    eq_iff r "",
    replaced-unlinked (record m { blacklist = (is_blacklisted m.blacklist old.token_id now).0 }) old
        now id refresh_id (revoke_token m.token_store old.token_id) r fresh
        (removed_at m.token_store r old own e ne).0,
  )

  -- A refresh token serves once: when it belongs to a stored token that is neither expired nor on
  -- the blacklist, it is not found after RefreshToken, whatever the answer, if it is not empty and
  -- the new refresh token is another.
  pub refresh-once :
      (m : CustomTokenManager) (r : String) (now : ℕ) (id refresh_id : Option String)
      (old : TokenData)
      → get_token_by_refresh m.token_store r ≡ inr old
      → get m.token_store.tokens old.token_id ≡ some old
      → old.refresh_token ≡ r
      → r ≢ ""
      → now / second ≤ old.expires_at
      → (is_blacklisted m.blacklist old.token_id now).1 ≡ false
      → refresh_id ≢ some r
      → get_token_by_refresh (refresh_token codec m r now id refresh_id).0.token_store r
        ≡ inl refresh_token_not_found
  refresh-once m r now id refresh_id old g own e ne ex bl fresh =
      not_linked (refresh_token codec m r now id refresh_id).0.token_store r
        (refresh-unlinked m r now id refresh_id old g own e ne ex bl fresh)
