-- ===== src/Auth/Authorizer.antt =====
-- auth/authorizer.go, RBACAuthorizer.
use eidola.Common.{
  String, ◌⊎◌, inl, inr, Bool, true, false, ◌||◌, Option, none, some, List, [], ◌∷◌, str_eq, any,
}
use Prim.Native.String.{◌++◌ as ◌++ₛ◌}
use eidola.Common.Dict.{Dict, get, assign, delete}
use eidola.Token.Store.{User}

pub data AuthorizerError : Type 0 where
  err_role_not_found user_is_nil : AuthorizerError

pub record RbacAuthorizer : Type 0 where
  pub role_permissions : Dict (Dict Bool)
  pub resource_action_permissions : Dict (Dict String)

unfoldable pub new_rbac_authorizer : RbacAuthorizer
new_rbac_authorizer = record { role_permissions = []; resource_action_permissions = [] }

unfoldable pub set_of : Dict Bool → List String → Dict Bool
set_of perms [] = perms
set_of perms (p ∷ ps) = set_of (assign perms p true) ps

unfoldable pub add_role : RbacAuthorizer → String → List String → RbacAuthorizer
add_role a role permissions = record a {
  role_permissions = assign a.role_permissions role (set_of [] permissions);
}

unfoldable pub remove_role : RbacAuthorizer → String → RbacAuthorizer
remove_role a role = record a { role_permissions = delete a.role_permissions role }

-- The map of a role is changed in place.
unfoldable pub change_role :
    RbacAuthorizer → String → (Dict Bool → Dict Bool) → RbacAuthorizer × Option AuthorizerError
change_role a role change = elim (get a.role_permissions role) [
  | none ↦ (a, some err_role_not_found)
  | some perms ↦
      (record a { role_permissions = assign a.role_permissions role (change perms) }, none)
]

unfoldable pub add_permission_to_role :
    RbacAuthorizer → String → String → RbacAuthorizer × Option AuthorizerError
unfolding change_role
add_permission_to_role a role permission =
    change_role a role (λ perms. assign perms permission true)

unfoldable pub remove_permission_from_role :
    RbacAuthorizer → String → String → RbacAuthorizer × Option AuthorizerError
unfolding change_role
remove_permission_from_role a role permission =
    change_role a role (λ perms. delete perms permission)

abbrev pub or_empty {ℓ} : {A : Type ℓ} → Option (Dict A) → Dict A
or_empty none = []
or_empty (some m) = m

unfoldable pub map_resource_action : RbacAuthorizer → String → String → String → RbacAuthorizer
map_resource_action a resource action permission = record a {
  resource_action_permissions =
      assign a.resource_action_permissions resource
        (assign (or_empty (get a.resource_action_permissions resource)) action permission);
}

-- fmt.Sprintf("%s:%s", resource, action)
abbrev pub standard_permission : String → String → String
standard_permission resource action = resource ++ₛ (":" ++ₛ action)

unfoldable pub get_permission_for_resource_action : RbacAuthorizer → String → String → String
get_permission_for_resource_action a resource action =
    elim (get a.resource_action_permissions resource) [
      | none ↦ standard_permission resource action
      | some actions ↦ elim (get actions action) [
        | none ↦ standard_permission resource action
        | some p ↦ p
      ]
    ]

abbrev pub is_true : Option Bool → Bool
is_true none = false
is_true (some b) = b

-- One round of the loop over the user's roles.
unfoldable pub role_permits : RbacAuthorizer → String → String → Bool
role_permits a permission role = elim (get a.role_permissions role) [
  | none ↦ false
  | some perms ↦ is_true (get perms permission) || is_true (get perms "*")
]

unfoldable pub user_permits : String → User → Bool
user_permits permission user = any (λ p. str_eq p permission || str_eq p "*") user.permissions

unfoldable pub check_permission :
    RbacAuthorizer → Option User → String → String → AuthorizerError ⊎ Bool
check_permission a none resource action = inl user_is_nil
check_permission a (some user) resource action =
    let permission = get_permission_for_resource_action a resource action in
    inr (user_permits permission user || any (role_permits a permission) user.roles)
