-- ===== src/Auth/Tokens.antt =====
-- auth/interceptor.go with auth/token/token.go and auth/authorizer.go: the interceptor over tokens
-- that the manager issues and revokes, and over roles.
use eidola.Common.{
  ℕ, ◌+◌, ◌/◌, ◌≤◌, String, ◌≡◌, refl, ap, ◌∙◌, ◌≢◌, ◌⊎◌, inl, inr, Bool, true, false, not, ◌&&◌,
  ◌||◌, Option, none, some, arith, if◌then◌else◌, any,
}
use Prim.Native.Char.{Char}
use Prim.Native.String.{◌++◌ as ◌++ₛ◌}
use text.Mathlib.TextLemmas.{cons-append as cons-append_text, nil-append as nil-append_text}
use eidola.Common.Dict.{get}
use eidola.Token.Store.{User}
use eidola.Token.Blacklist.{second, is_blacklisted}
use eidola.Token.Claims.{Codec}
use eidola.Token.Manager.{
  CustomTokenManager, TokenInfo, claims_of, generate_token, validate_token, revoke,
}
use eidola.Token.Revocation.{revoke-validate}
use eidola.Token.Encoding.{Lawful}
use eidola.Token.Issue.{lasts, generate-validate}
use eidola.Auth.Extractor.{ExtractError}
use eidola.Auth.Authorizer.{
  RbacAuthorizer, check_permission, get_permission_for_resource_action, user_permits, role_permits,
}
use eidola.Auth.Interceptor.{
  ResourceAction, AuthInterceptor, is_slash, first_part, default_resource_action,
  resource_action_for, is_public, permission_denied, handles, refuses, authenticate, authorize_as,
  authorize, reply_to, intercept,
}

abbrev slash : Char
slash = "/"

-- No character of the text is a slash.
abbrev pub no_slash : String → Bool
no_slash String.[] = true
no_slash (String.◌∷◌ c s) = not (is_slash c) && no_slash s

slash-append : (p : String) → "/" ++ₛ p ≡ String.◌∷◌ slash p
slash-append p = cons-append_text slash "" p ∙ ap (String.◌∷◌ slash) (nil-append_text p)

first_part-append : (s m : String) → no_slash s ≡ true → first_part (s ++ₛ ("/" ++ₛ m)) ≡ s
unfolding first_part
first_part-append String.[] m h = rw (nil-append_text, slash-append)
first_part-append (String.◌∷◌ c s) m h = rw cons-append_text (ground (arith, first_part-append s m))

-- The full name of a method of grpc.
abbrev pub full_method : String → String → String
full_method service method = "/" ++ₛ (service ++ₛ ("/" ++ₛ method))

default-full :
    (service method : String)
    → no_slash service ≡ true
    → default_resource_action (full_method service method)
      ≡ some (record { resource = ""; action = service })
unfolding default_resource_action
default-full service method h = rw (slash-append, first_part-append service method h)

module _ {M X V Z : Type 0} (validate : M → String → ℕ → M × (V ⊎ User)) where
  intercept-valid :
      (az : Option (User → String → String → Z ⊎ Bool)) (i : AuthInterceptor) (m : M)
      (method token : String) (now : ℕ) (user : User)
      → is_public (get i.public_methods method) ≡ false
      → (validate m token now).1 ≡ inr user
      → (intercept {X = X} validate az i m method (inr token) now).1
        ≡ reply_to validate az i method (inr user)
  unfolding intercept authenticate
  intercept-valid az i m method token now user p v = ground arith

  -- A method without a mapping, of a service whose name has no slash, is authorized by the empty
  -- resource and the name of the service as the action: the name of the method plays no part.
  pub intercept-unmapped :
      (check : User → String → String → Z ⊎ Bool) (i : AuthInterceptor) (m : M)
      (service method token : String) (now : ℕ) (user : User) (b : Bool)
      → no_slash service ≡ true
      → is_public (get i.public_methods (full_method service method)) ≡ false
      → get i.method_resource_map (full_method service method) ≡ none
      → (validate m token now).1 ≡ inr user
      → check user "" service ≡ inr b
      → (intercept {X = X} validate (some check) i m (full_method service method) (inr token) now).1
        ≡ (if b then handles (some user) else refuses permission_denied)
  unfolding reply_to authorize authorize_as resource_action_for
  intercept-unmapped check i m service method token now user b ns p u v c =
      intercept-valid (some check) i m (full_method service method) token now user p v
      ∙ ground (arith, default-full service method ns)

  not_valid-refused :
      (az : Option (User → String → String → Z ⊎ Bool)) (i : AuthInterceptor) (m : M)
      (method token : String) (now : ℕ) (ctx : Option User) (v : V ⊎ User)
      → is_public (get i.public_methods method) ≡ false
      → (validate m token now).1 ≡ v
      → ((user : User) → v ≢ inr user)
      → (intercept {X = X} validate az i m method (inr token) now).1 ≢ handles ctx
  unfolding intercept authenticate reply_to
  not_valid-refused az i m method token now ctx (inl e) p h n = ground arith
  not_valid-refused az i m method token now ctx (inr user) p h n = absurd (n user refl)

module _ (codec : Codec) where
  -- After RevokeToken of a token no call with it to a method that is not public reaches the handler,
  -- at any time, whatever the authorizer.
  pub intercept-revoked :
      {Z : Type 0} (az : Option (User → String → String → Z ⊎ Bool)) (i : AuthInterceptor)
      (m : CustomTokenManager) (method token : String) (now later : ℕ) (ctx : Option User)
      → is_public (get i.public_methods method) ≡ false
      → (intercept {X = ExtractError}
          (validate_token codec)
          az
          i
          (revoke codec m token now).0
          method
          (inr token)
          later).1
        ≢ handles ctx
  intercept-revoked az i m method token now later ctx p =
      not_valid-refused (validate_token codec) az i (revoke codec m token now).0 method token later
        ctx (validate_token codec (revoke codec m token now).0 token later).1 p refl
        (λ user. revoke-validate codec m token now later user)

  -- A call with a token that the manager has just issued to a user reaches the handler, with this
  -- user, exactly if the authorizer permits the resource and action of the method to the user or
  -- to a role of the user, and is otherwise denied: where the method is not public and is mapped,
  -- the token has not expired and is not on the blacklist, and the encodings read back.
  pub intercept-issued :
      (a : RbacAuthorizer) (i : AuthInterceptor) (m : CustomTokenManager) (user : User)
      (method : String) (ra : ResourceAction) (duration now later : ℕ) (id : String)
      (refresh_id : Option String) (info : TokenInfo)
      → is_public (get i.public_methods method) ≡ false
      → get i.method_resource_map method ≡ some ra
      → Lawful codec (claims_of codec m user id now (now + lasts m duration))
      → (generate_token codec m user duration now (some id) refresh_id).1 ≡ inr info
      → info.access_token ≢ ""
      → later / second ≤ info.expires_at / second
      → (is_blacklisted m.blacklist id later).1 ≡ false
      → (intercept {X = ExtractError}
          (validate_token codec)
          (some (λ u. check_permission a (some u)))
          i
          (generate_token codec m user duration now (some id) refresh_id).0
          method
          (inr info.access_token)
          later).1
        ≡ (if user_permits (get_permission_for_resource_action a ra.resource ra.action) user
              || any
                  (role_permits a (get_permission_for_resource_action a ra.resource ra.action))
                  user.roles
            then handles (some user)
            else refuses permission_denied)
  unfolding reply_to authorize authorize_as resource_action_for check_permission
  intercept-issued a i m user method ra duration now later id refresh_id info p g law h ne early
        bl =
      intercept-valid (validate_token codec) (some (λ u. check_permission a (some u))) i
        (generate_token codec m user duration now (some id) refresh_id).0 method info.access_token
        later user p
        (generate-validate codec m user duration now later id refresh_id info law h ne early bl)
      ∙ ground arith
