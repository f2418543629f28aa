-- ===== src/Rbac/Access.antt =====
-- auth/authorization/rbac.go: permission strings, and what the interceptors decide.
use eidola.Common.{
  ◌<◌, String, ◌≡◌, refl, ap, ◌∙◌, ◌⊎◌, false, none, some, List, [], ◌∷◌, arith, eq_iff, ◌==◌,
  length, any,
}
use Prim.Native.Char.{Char, code}
use Prim.Native.String.{◌++◌ as ◌++ₛ◌}
use text.Mathlib.TextLemmas.{cons-append as cons-append_text, nil-append as nil-append_text}
use eidola.Common.Dict.{get, get-assign}
use eidola.Rbac.Defs.{
  Permission, Resource, Role, RbacAuthorizer, Metadata, has_permission, split_colon,
  parse_permission, parse_resource_permission, create_permission, get_permissions_for_method,
  intercept, map_method_to_permission, grants, get_role_from_context, get_role, role_found,
  intercept_as, Found, not_found,
}

-- No character of the text is a colon.
abbrev pub NoColon : String → Type 0
NoColon String.[] = Unit {0}
NoColon (String.◌∷◌ c s) = (code c == b':' ≡ false) × NoColon s

-- One of the five permissions.
abbrev pub IsPermission : Permission → Type 0
IsPermission p = (p ≡ "create") ⊎ (p ≡ "read") ⊎ (p ≡ "update") ⊎ (p ≡ "delete") ⊎ (p ≡ "admin")

abbrev colon : Char
colon = ":"

colon-append : (p : String) → ":" ++ₛ p ≡ String.◌∷◌ colon p
colon-append p = cons-append_text colon "" p ∙ ap (String.◌∷◌ colon) (nil-append_text p)

split_colon-create :
    (resource : Resource) (p : Permission)
    → NoColon resource
    → split_colon (resource ++ₛ (":" ++ₛ p)) ≡ some (resource, p)
unfolding split_colon
split_colon-create String.[] p h = rw (nil-append_text, colon-append)
split_colon-create (String.◌∷◌ c s) p h = rw (cons-append_text, h.0, split_colon-create s p h.1)

parse_permission_lem :
    (to_lower : String → String) (p : Permission)
    → IsPermission p
    → to_lower p ≡ p
    → parse_permission to_lower p ≡ some p
unfolding parse_permission
parse_permission_lem to_lower p h e = ground (
  arith,
  eq_iff (to_lower p) "create",
  eq_iff (to_lower p) "read",
  eq_iff (to_lower p) "update",
  eq_iff (to_lower p) "delete",
  eq_iff (to_lower p) "admin",
)

-- The string that CreatePermission makes of a resource without a colon and one of the five
-- permissions parses back into both, where lower case leaves the permission as it is.
parse_resource_permission-create :
    (to_lower : String → String) (resource : Resource) (p : Permission)
    → NoColon resource
    → IsPermission p
    → to_lower p ≡ p
    → parse_resource_permission to_lower (create_permission resource p) ≡ some (resource, p)
unfolding parse_resource_permission create_permission
parse_resource_permission-create to_lower resource p h i e =
    rw (split_colon-create resource p h, parse_permission_lem to_lower p i e)

split_colon-none : (s : String) → NoColon s → split_colon s ≡ none
unfolding split_colon
split_colon-none String.[] h = refl
split_colon-none (String.◌∷◌ c s) h = rw (h.0, split_colon-none s h.1)

abbrev NoColons : List Permission → Type 0
NoColons [] = Unit {0}
NoColons (p ∷ ps) = NoColon p × NoColons ps

grants-none :
    (to_lower : String → String) (ps : List Permission) (role : Role)
    → NoColons ps
    → any (λ p. grants role (parse_resource_permission to_lower p)) ps ≡ false
unfolding parse_resource_permission
grants-none to_lower [] role h = refl
grants-none to_lower (p ∷ ps) role h = rw (split_colon-none p h.0, grants-none to_lower ps role h.1)

bare_as :
    (to_lower : String → String) (ps : List Permission) (f : Found)
    → 0 < length ps
    → NoColons ps
    → intercept_as to_lower ps f ≡ false
unfolding intercept_as
bare_as to_lower ps (not_found e) h n = refl
bare_as to_lower [] (role_found role) h n = absurd (omega arith)
bare_as to_lower (p ∷ ps) (role_found role) h n =
    ground (arith, grants-none to_lower (p ∷ ps) role n)

-- A method whose permissions are bare resources without a colon, as MapServiceToResource stores
-- them, is refused to every caller, whatever the roles permit.
intercept-bare_resources :
    (to_lower : String → String) (a : RbacAuthorizer) (md : Metadata) (method : String)
    → 0 < length (get_permissions_for_method a method)
    → NoColons (get_permissions_for_method a method)
    → intercept to_lower a md method ≡ false
unfolding intercept
intercept-bare_resources to_lower a md method h n =
    bare_as to_lower (get_permissions_for_method a method) (get_role_from_context a md) h n

permissions-map_method :
    (a : RbacAuthorizer) (method : String) (resource : Resource) (p : Permission)
    → get a.permissions method ≡ none
    → get_permissions_for_method (map_method_to_permission a method resource p) method
      ≡ create_permission resource p ∷ []
unfolding get_permissions_for_method map_method_to_permission
permissions-map_method a method resource p new = ground (
  arith,
  eq_iff method method,
  get-assign a.permissions method (create_permission resource p ∷ []) method,
)

known_role :
    (a : RbacAuthorizer) (name : String) (values : List String) (role : Role)
    → get a.roles name ≡ some role
    → get_role_from_context a (some (name ∷ values)) ≡ role_found role
unfolding get_role_from_context
known_role a name values role known = rw known

kept_role :
    (a : RbacAuthorizer) (method name : String) (resource : Resource) (p : Permission) (role : Role)
    → get a.roles name ≡ some role
    → get (map_method_to_permission a method resource p).roles name ≡ some role
unfolding map_method_to_permission
kept_role a method name resource p role known = known

single_permission :
    (to_lower : String → String) (role : Role) (resource : Resource) (p : Permission)
    → NoColon resource
    → IsPermission p
    → to_lower p ≡ p
    → intercept_as to_lower (create_permission resource p ∷ []) (role_found role)
      ≡ has_permission role resource p
unfolding intercept_as
single_permission to_lower role resource p h i e =
    rw (parse_resource_permission-create to_lower resource p h i e) (ground arith)

-- After MapMethodToPermission of a method that had no permissions to a resource without a colon and
-- one of the five permissions of the package, which lower case leaves as it is, a caller whose role is
-- known may call the method exactly if that role has the permission on the resource.
pub intercept-map_method :
    (to_lower : String → String) (a : RbacAuthorizer) (method name : String) (values : List String)
    (role : Role) (resource : Resource) (p : Permission)
    → get a.permissions method ≡ none
    → get a.roles name ≡ some role
    → NoColon resource
    → IsPermission p
    → to_lower p ≡ p
    → intercept to_lower
        (map_method_to_permission a method resource p)
        (some (name ∷ values))
        method
      ≡ has_permission role resource p
unfolding intercept
intercept-map_method to_lower a method name values role resource p new known h i e =
    rw
      (
        known_role (map_method_to_permission a method resource p) name values role
            (kept_role a method name resource p role known),
        permissions-map_method a method resource p new,
      )
      (single_permission to_lower role resource p h i e)

-- A call without metadata, without a role or with a role that does not exist is refused.
pub intercept-unknown :
    (to_lower : String → String) (a : RbacAuthorizer) (name method : String) (values : List String)
    → get a.roles name ≡ none
    → (intercept to_lower a none method ≡ false)
      × (intercept to_lower a (some []) method ≡ false)
      × (intercept to_lower a (some (name ∷ values)) method ≡ false)
unfolding intercept get_role_from_context get_role
intercept-unknown to_lower a name method values unknown = (refl, refl, rw (unknown, intercept))
