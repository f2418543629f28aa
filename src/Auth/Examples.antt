-- ===== src/Auth/Examples.antt =====
-- auth/: tests, and the theorems at the token of auth/token/ that the tests there issue.
use eidola.Common.{
  ℕ, ◌*◌, String, ◌≡◌, refl, ◌≢◌, ◌⊎◌, inl, inr, Bool, true, false, ◌&&◌, none, some, List, [], ◌∷◌,
  arith, str_eq, eq_iff,
}
use Prim.Native.String.{◌++◌ as ◌++ₛ◌}
use eidola.Common.Dict.{Dict, get, assign}
use eidola.Token.Store.{User}
use eidola.Token.Blacklist.{second, is_blacklisted, check_expiry, new_in_memory_blacklist}
use eidola.Token.Manager.{claims_of, validate_token, revoke}
use eidola.Token.Sample.{
  ann, manager, codec, codec-Lawful, issued, after, access_not_empty, generates,
}
use eidola.Auth.Extractor.{
  strip, strip_prefix, trimmed, ExtractError, MetadataTokenExtractor, extract, extract_composite,
  extract_from, missing_prefix,
}
use eidola.Auth.Authorizer.{
  RbacAuthorizer, new_rbac_authorizer, add_role, map_resource_action, check_permission,
  get_permission_for_resource_action, user_permits, role_permits, set_of,
}
use eidola.Auth.Interceptor.{
  ResourceAction, AuthInterceptor, add_public_method, add_resource_mapping, new_auth_interceptor,
  intercept, handles, is_public,
}
use eidola.Auth.Tokens.{full_method, intercept-unmapped, intercept-revoked, intercept-issued}

abbrev bearer : MetadataTokenExtractor
bearer = record { key = "authorization"; prefix = "Bearer " }

abbrev metadata : Dict (List String)
metadata = record { key = "authorization"; value = "Bearer t.s" ∷ [] } ∷ []

abbrev same : String → String
same s = s

extracts : extract same same bearer (some metadata) ≡ inr "t.s"
unfolding extract strip strip_prefix trimmed get
extracts = refl

second_extractor : extract_composite (inl (missing_prefix "x") ∷ inr "t" ∷ inr "u" ∷ []) ≡ inr "t"
unfolding extract_composite extract_from
second_extractor = refl

found : get metadata (same bearer.key) ≡ some (("Bearer " ++ₛ "t.s") ∷ [])
unfolding get
found = refl

token_not_empty : ◌≢◌ {A = String} "t.s" ""
token_not_empty = ground (arith, eq_iff "t.s" "")

abbrev authorizer : RbacAuthorizer
authorizer =
    map_resource_action (add_role new_rbac_authorizer "user" ("user:read" ∷ [])) "user" "get"
      "user:read"

abbrev read_only : Dict Bool
read_only = record { key = "user:read"; value = true } ∷ []

knows_user : get authorizer.role_permissions "user" ≡ some read_only
unfolding new_rbac_authorizer add_role map_resource_action set_of get assign
knows_user = refl

abbrev get_user : String
get_user = full_method "users.Users" "Get"

abbrev interceptor : AuthInterceptor
interceptor =
    add_resource_mapping
      (add_public_method new_auth_interceptor (full_method "users.Users" "Login")) get_user "user"
      "get"

abbrev get_action : ResourceAction
get_action = record { resource = "user"; action = "get" }

not_public : is_public (get interceptor.public_methods get_user) ≡ false
unfolding get assign add_public_method add_resource_mapping new_auth_interceptor
not_public = refl

is_mapped : get interceptor.method_resource_map get_user ≡ some get_action
unfolding get assign add_public_method add_resource_mapping new_auth_interceptor
is_mapped = refl

intercept-revoked_example :
    (intercept {X = ExtractError}
      (validate_token codec)
      (some (λ u. check_permission authorizer (some u)))
      interceptor
      (revoke codec after issued.access_token (200 * second)).0
      get_user
      (inr issued.access_token)
      (300 * second)).1
    ≢ handles (some ann)
intercept-revoked_example =
    intercept-revoked codec (some (λ u. check_permission authorizer (some u))) interceptor after
      get_user issued.access_token (200 * second) (300 * second) (some ann) not_public

intercept-issued_example :
    (intercept {X = ExtractError}
      (validate_token codec)
      (some (λ u. check_permission authorizer (some u)))
      interceptor
      after
      get_user
      (inr issued.access_token)
      (3700 * second)).1
    ≡ handles (some ann)
unfolding claims_of is_blacklisted check_expiry get new_in_memory_blacklist user_permits
    role_permits map_resource_action add_role assign new_rbac_authorizer set_of
    get_permission_for_resource_action
intercept-issued_example =
    intercept-issued codec authorizer interceptor manager ann get_user get_action 0 (100 * second)
      (3700 * second) "t1" (some "r1") issued not_public is_mapped codec-Lawful generates
      access_not_empty (ground arith) refl

-- A manager that accepts every token, and an authorizer that permits "users.Users" at no resource.
abbrev accepts : ℕ → String → ℕ → ℕ × (ℕ ⊎ User)
accepts m token now = (m, inr ann)

abbrev checks : User → String → String → ℕ ⊎ Bool
checks user resource action = inr (str_eq resource "" && str_eq action "users.Users")

not_public_either :
    is_public (get interceptor.public_methods (full_method "users.Users" "Delete")) ≡ false
unfolding get assign add_public_method add_resource_mapping new_auth_interceptor
not_public_either = refl

unmapped : get interceptor.method_resource_map (full_method "users.Users" "Delete") ≡ none
unfolding get assign add_public_method add_resource_mapping new_auth_interceptor
unmapped = refl

intercept-unmapped_example :
    (intercept {X = ℕ} accepts
      (some checks)
      interceptor
      0
      (full_method "users.Users" "Delete")
      (inr "t")
      5).1
    ≡ handles (some ann)
intercept-unmapped_example =
    intercept-unmapped accepts checks interceptor 0 "users.Users" "Delete" "t" 5 ann true refl
      not_public_either unmapped refl refl
