-- ===== src/Rbac/Defs.antt =====
-- auth/authorization/rbac.go: types and operations. A permission string "resource:permission" is
-- kept as the text that Sprintf makes; `to_lower` is strings.ToLower, which knows all of Unicode.
-- The text of an error is not modelled.
use eidola.Common.{
  String, Bool, true, false, not, ◌&&◌, ◌||◌, Option, none, some, List, [], ◌∷◌, ◌++◌, str_eq, ◌==◌,
  if◌then◌else◌, length, keep, any,
}
use Prim.Native.Char.{Char, code}
use Prim.Native.String.{◌++◌ as ◌++ₛ◌}
use text.Mathlib.Text.{starts_with}
use mathlib.Core.Option
use eidola.Common.Dict.{Dict, get, assign, delete}

-- The five constants, and any other text.
abbrev pub Permission : Type 0
Permission = String

abbrev pub Resource : Type 0
Resource = String

pub data Error : Type 0 where
  err_permission_denied err_role_not_found err_invalid_permission err_no_metadata
        err_no_credentials :
      Error

abbrev pub permission_admin : Permission
permission_admin = "admin"

-- ParsePermission, where `to_lower` is strings.ToLower.
unfoldable pub parse_permission : (String → String) → String → Option Permission
parse_permission to_lower s =
    let t = to_lower s in
    if str_eq t "create"
      || str_eq t "read"
      || str_eq t "update"
      || str_eq t "delete"
      || str_eq t "admin"
    then some t
    else none

pub record Role : Type 0 where
  pub name : String
  pub description : String
  pub permissions : Dict (List Permission)

unfoldable pub new_role : String → String → Role
new_role name description = record { name = name; description = description; permissions = [] }

abbrev pub holds : List Permission → Permission → Bool
holds ps permission = any (λ p. str_eq p permission) ps

unfoldable pub permits : Option (List Permission) → Permission → Bool
permits none permission = false
permits (some ps) permission = holds ps permission_admin || holds ps permission

unfoldable pub has_permission : Role → Resource → Permission → Bool
unfolding permits
has_permission r resource permission = permits (get r.permissions resource) permission

-- A missing key reads as the empty slice.
unfoldable pub or_empty : Option (List Permission) → List Permission
or_empty none = []
or_empty (some ps) = ps

unfoldable pub add_permission : Role → Resource → Permission → Role
unfolding or_empty
add_permission r resource permission =
    let ps = or_empty (get r.permissions resource) in
    if holds ps permission
    then r
    else record r { permissions = assign r.permissions resource (ps ++ permission ∷ []) }

unfoldable pub is_present {ℓ} : {A : Type ℓ} → Option A → Bool
is_present none = false
is_present (some a) = true

unfoldable pub has_resource : Role → Resource → Bool
unfolding is_present
has_resource r resource =
    is_present (get r.permissions "*") || is_present (get r.permissions resource)

-- What RemovePermission does with the permissions of the resource.
unfoldable pub without : Role → Resource → Permission → Option (List Permission) → Role
without r resource permission none = r
without r resource permission (some ps) =
    let rest = keep (λ p. not (str_eq p permission)) ps in
    if length rest == 0
    then record r { permissions = delete r.permissions resource }
    else record r { permissions = assign r.permissions resource rest }

unfoldable pub remove_permission : Role → Resource → Permission → Role
unfolding without
remove_permission r resource permission = without r resource permission (get r.permissions resource)

pub record RbacAuthorizer : Type 0 where
  pub roles : Dict Role
  pub permissions : Dict (List Permission)

unfoldable pub new_rbac_authorizer : RbacAuthorizer
new_rbac_authorizer = record { roles = []; permissions = [] }

unfoldable pub add_role : RbacAuthorizer → Role → RbacAuthorizer
add_role a role = record a { roles = assign a.roles role.name role }

unfoldable pub remove_role : RbacAuthorizer → String → RbacAuthorizer
remove_role a role_name = record a { roles = delete a.roles role_name }

-- GetRole: a missing role is ErrRoleNotFound.
unfoldable pub get_role : RbacAuthorizer → String → Option Role
get_role a role_name = get a.roles role_name

-- fmt.Sprintf("%s:%s", resource, permission)
unfoldable pub create_permission : Resource → Permission → Permission
create_permission resource permission = resource ++ₛ (":" ++ₛ permission)

unfoldable pub append_permission : RbacAuthorizer → String → Permission → RbacAuthorizer
unfolding or_empty
append_permission a key p = record a {
  permissions = assign a.permissions key (or_empty (get a.permissions key) ++ p ∷ []);
}

unfoldable pub map_method_to_permission :
    RbacAuthorizer → String → Resource → Permission → RbacAuthorizer
unfolding append_permission create_permission
map_method_to_permission a method resource permission =
    append_permission a method (create_permission resource permission)

-- The pattern is "/service/", and the permission is the bare resource.
unfoldable pub map_service_to_resource : RbacAuthorizer → String → Resource → RbacAuthorizer
unfolding append_permission
map_service_to_resource a service_name resource =
    append_permission a ("/" ++ₛ (service_name ++ₛ "/")) resource

-- strings.HasSuffix(pattern, "/"): whether the last character read is a slash.
unfoldable pub ends_in_slash : Bool → String → Bool
ends_in_slash last String.[] = last
ends_in_slash last (String.◌∷◌ c s) = ends_in_slash (code c == b'/') s

-- The loop over the patterns, in the order of the map's iteration.
unfoldable pub match_service : String → Dict (List Permission) → List Permission
match_service method [] = []
match_service method (e ∷ rest) =
    if ends_in_slash false e.key && starts_with method e.key
    then e.value
    else match_service method rest

unfoldable pub or_service :
    Option (List Permission) → String → Dict (List Permission) → List Permission
unfolding match_service
or_service none method permissions = match_service method permissions
or_service (some ps) method permissions = ps

unfoldable pub get_permissions_for_method : RbacAuthorizer → String → List Permission
unfolding or_service
get_permissions_for_method a method = or_service (get a.permissions method) method a.permissions

abbrev pub in_front : Char → Option (String × String) → Option (String × String)
in_front c none = none
in_front c (some (s, t)) = some (String.◌∷◌ c s, t)

-- strings.SplitN(s, ":", 2), if it has two parts.
unfoldable pub split_colon : String → Option (String × String)
split_colon String.[] = none
split_colon (String.◌∷◌ c s) =
    if code c == b':' then some (String.[], s) else in_front c (split_colon s)

abbrev pub parse_second :
    (String → String) → Option (String × String) → Option (Resource × Permission)
parse_second to_lower none = none
parse_second to_lower (some (resource, p)) =
    Option.map (λ q. (resource, q)) (parse_permission to_lower p)

unfoldable pub parse_resource_permission :
    (String → String) → Permission → Option (Resource × Permission)
unfolding split_colon parse_permission
parse_resource_permission to_lower perm = parse_second to_lower (split_colon perm)

-- The metadata of a context: absent, or the values of "role".
abbrev pub Metadata : Type 0
Metadata = Option (List String)

pub data Found : Type 0 where
  role_found : Role → Found
  not_found : Error → Found

abbrev pub or_not_found : Option Role → Found
or_not_found none = not_found err_role_not_found
or_not_found (some r) = role_found r

unfoldable pub get_role_from_context : RbacAuthorizer → Metadata → Found
unfolding get_role
get_role_from_context a none = not_found err_no_metadata
get_role_from_context a (some []) = not_found err_no_credentials
get_role_from_context a (some (role_name ∷ _)) = or_not_found (get_role a role_name)

abbrev pub grants : Role → Option (Resource × Permission) → Bool
grants role none = false
grants role (some (resource, permission)) = has_permission role resource permission

-- The check of UnaryServerInterceptor and of StreamServerInterceptor for a role: `true` is a call
-- of the handler, `false` the status PermissionDenied.
unfoldable pub check_permissions : (String → String) → List Permission → Role → Bool
unfolding parse_resource_permission has_permission
check_permissions to_lower required role =
    if length required == 0
    then true
    else any (λ p. grants role (parse_resource_permission to_lower p)) required

unfoldable pub intercept_as : (String → String) → List Permission → Found → Bool
unfolding check_permissions
intercept_as to_lower required (not_found e) = false
intercept_as to_lower required (role_found role) = check_permissions to_lower required role

unfoldable pub intercept : (String → String) → RbacAuthorizer → Metadata → String → Bool
unfolding get_role_from_context get_permissions_for_method intercept_as
intercept to_lower a md method =
    intercept_as to_lower (get_permissions_for_method a method) (get_role_from_context a md)

-- AuthorizeByRole: nil is `none`.
unfoldable pub authorize_by_role : RbacAuthorizer → String → Resource → Permission → Option Error
unfolding get_role has_permission
authorize_by_role a role_name resource permission = elim (get_role a role_name) [
  | none ↦ some err_role_not_found
  | some role ↦ if has_permission role resource permission then none else some err_permission_denied
]

-- AuthorizationMiddleware.
unfoldable pub middleware : RbacAuthorizer → Resource → Permission → Metadata → Bool
unfolding get_role_from_context has_permission
middleware a resource permission md = elim (get_role_from_context a md) [
  | not_found e ↦ false
  | role_found role ↦ has_permission role resource permission
]

-- The roles of SetupDefaultRoles; the descriptions are left out.
abbrev pub admin_role : Role
admin_role = record {
  name = "admin";
  description = "";
  permissions = record { key = "*"; value = permission_admin ∷ [] } ∷ [];
}

abbrev pub read_only_role : Role
read_only_role = record {
  name = "readonly";
  description = "";
  permissions = record { key = "*"; value = "read" ∷ [] } ∷ [];
}

abbrev pub user_role : Role
user_role = record {
  name = "user";
  description = "";
  permissions =
      record { key = "user"; value = "read" ∷ "update" ∷ [] }
      ∷ record { key = "data"; value = "create" ∷ "read" ∷ "update" ∷ "delete" ∷ [] }
      ∷ [];
}

unfoldable pub setup_default_roles : RbacAuthorizer → RbacAuthorizer
unfolding add_role
setup_default_roles a = add_role (add_role (add_role a admin_role) read_only_role) user_role
