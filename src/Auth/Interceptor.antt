-- ===== src/Auth/Interceptor.antt =====
-- auth/interceptor.go, AuthInterceptor, over any extractor, token manager and authorizer: the result
-- of Extract, a function for ValidateToken, which may change the manager, and one for
-- CheckPermission. The two interceptors decide alike; Reply says whether the handler is called.
use eidola.Common.{
  ℕ, String, ◌⊎◌, inl, inr, Bool, true, false, Option, none, some, [], ◌==◌, if◌then◌else◌,
}
use Prim.Native.Char.{Char, code}
use eidola.Common.Dict.{Dict, get, assign}
use eidola.Token.Store.{User}

pub record ResourceAction : Type 0 where
  pub resource : String
  pub action : String

pub record AuthInterceptor : Type 0 where
  pub public_methods : Dict Bool
  pub method_resource_map : Dict ResourceAction

unfoldable pub new_auth_interceptor : AuthInterceptor
new_auth_interceptor = record { public_methods = []; method_resource_map = [] }

unfoldable pub add_public_method : AuthInterceptor → String → AuthInterceptor
add_public_method i method = record i { public_methods = assign i.public_methods method true }

unfoldable pub add_resource_mapping : AuthInterceptor → String → String → String → AuthInterceptor
add_resource_mapping i method resource action = record i {
  method_resource_map =
      assign i.method_resource_map method (record { resource = resource; action = action });
}

abbrev pub is_slash : Char → Bool
is_slash c = code c == b'/'

-- The first part of strings.Split(s, "/"), and what follows the first slash.
unfoldable pub first_part : String → String
first_part String.[] = ""
first_part (String.◌∷◌ c s) = if is_slash c then "" else String.◌∷◌ c (first_part s)

unfoldable pub after_slash : String → Option String
after_slash String.[] = none
after_slash (String.◌∷◌ c s) = if is_slash c then some s else after_slash s

-- What a method without a mapping stands for: its first two parts.
unfoldable pub default_resource_action : String → Option ResourceAction
unfolding first_part after_slash
default_resource_action method = elim (after_slash method) [
  | none ↦ none
  | some rest ↦ some (record { resource = first_part method; action = first_part rest })
]

unfoldable pub resource_action_for : AuthInterceptor → String → Option ResourceAction
resource_action_for i method = elim (get i.method_resource_map method) [
  | none ↦ default_resource_action method
  | some ra ↦ some ra
]

abbrev pub is_public : Option Bool → Bool
is_public none = false
is_public (some b) = b

-- Why a call is not handled: no token, a token that does not validate, or no permission.
pub data Refusal (X V Z : Type 0) : Type 0 where
  no_token : X → Refusal X V Z
  not_validated : V → Refusal X V Z
  not_authorized : Z → Refusal X V Z
  permission_denied : Refusal X V Z

-- The handler is called with the user in its context, or without one.
pub data Reply (X V Z : Type 0) : Type 0 where
  handles : Option User → Reply X V Z
  refuses : Refusal X V Z → Reply X V Z

module _ {M X V Z : Type 0} (validate : M → String → ℕ → M × (V ⊎ User))
    (authorizer : Option (User → String → String → Z ⊎ Bool)) where
  unfoldable pub authenticate : M → X ⊎ String → ℕ → M × (Refusal X V Z ⊎ User)
  authenticate m (inl e) now = (m, inl (no_token e))
  authenticate m (inr token) now =
      let r = validate m token now in
      (r.0, elim r.1 [ inl e ↦ inl (not_validated e) | inr user ↦ inr user ])

  unfoldable pub authorize_as :
      Option (User → String → String → Z ⊎ Bool)
      → User
      → Option ResourceAction
      → Option (Refusal X V Z)
  authorize_as az user none = some permission_denied
  authorize_as none user (some ra) = none
  authorize_as (some check) user (some ra) = elim (check user ra.resource ra.action) [
    | inl e ↦ some (not_authorized e)
    | inr allowed ↦ if allowed then none else some permission_denied
  ]

  unfoldable pub authorize : AuthInterceptor → User → String → Option (Refusal X V Z)
  authorize i user method = authorize_as authorizer user (resource_action_for i method)

  unfoldable pub reply_to : AuthInterceptor → String → Refusal X V Z ⊎ User → Reply X V Z
  reply_to i method (inl e) = refuses e
  reply_to i method (inr user) = elim (authorize i user method) [
    | none ↦ handles (some user)
    | some e ↦ refuses e
  ]

  unfoldable pub intercept : AuthInterceptor → M → String → X ⊎ String → ℕ → M × Reply X V Z
  intercept i m method extracted now =
      let r = authenticate m extracted now in
      if is_public (get i.public_methods method)
      then (m, handles none)
      else (r.0, reply_to i method r.1)
