-- ===== src/Auth/Roles.antt =====
-- auth/authorizer.go: what a role permits, before and after the authorizer is changed.
use eidola.Common.{
  String, ◌≡◌, refl, Bool, true, false, not, ◌&&◌, ◌||◌, none, some, List, [], ◌∷◌, arith, str_eq,
  eq_iff, if◌then◌else◌, any,
}
use eidola.Common.Dict.{Dict, get, assign, delete, get-assign, get-delete}
use eidola.Auth.Authorizer.{
  RbacAuthorizer, add_role, remove_role, add_permission_to_role, remove_permission_from_role,
  map_resource_action, get_permission_for_resource_action, or_empty, is_true, role_permits, set_of,
}

-- A role permits what it is given, and all with "*".
set_of-get :
    (perms : Dict Bool) (ps : List String) (p : String)
    → is_true (get (set_of perms ps) p) ≡ (is_true (get perms p) || any (λ q. str_eq q p) ps)
unfolding set_of
set_of-get perms [] p = ground arith
set_of-get perms (q ∷ qs) p =
    ground (arith, set_of-get (assign perms q true) qs p, get-assign perms q true p)

get_empty : {A : Type 0} (key : String) → get {V = A} [] key ≡ none
unfolding get
get_empty key = refl

-- After AddRole the role permits a permission exactly if this or "*" is in the list, and the other
-- roles permit what they did; after RemoveRole it permits nothing.
role_permits-add_role :
    (a : RbacAuthorizer) (role other p : String) (ps : List String)
    → (role_permits (add_role a role ps) p other ≡ (
        if str_eq role other
        then any (λ q. str_eq q p) ps || any (λ q. str_eq q "*") ps
        else role_permits a p other))
      × (role_permits (remove_role a role) p other
          ≡ (if str_eq role other then false else role_permits a p other))
unfolding role_permits add_role remove_role
role_permits-add_role a role other p ps = ground (
  arith,
  get-assign a.role_permissions role (set_of [] ps) other,
  get-delete a.role_permissions role other,
  set_of-get [] ps p,
  set_of-get [] ps "*",
  get_empty {A = Bool} p,
  get_empty {A = Bool} "*",
)

-- Adding a permission to a role that exists makes it permit that permission, or every one if it is
-- "*", besides what it did; removing it leaves what the others allow. Other roles are not affected.
role_permits-change :
    (a : RbacAuthorizer) (role other p q : String) (perms : Dict Bool)
    → get a.role_permissions role ≡ some perms
    → (role_permits (add_permission_to_role a role q).0 p other
        ≡ (role_permits a p other || (str_eq role other && (str_eq q p || str_eq q "*"))))
      × (role_permits (remove_permission_from_role a role q).0 p other ≡ (
          if str_eq role other
          then (not (str_eq q p) && is_true (get perms p))
            || (not (str_eq q "*") && is_true (get perms "*"))
          else role_permits a p other))
unfolding role_permits add_permission_to_role remove_permission_from_role
role_permits-change a role other p q perms h = ground (
  arith,
  eq_iff role other,
  get-assign a.role_permissions role (assign perms q true) other,
  get-assign a.role_permissions role (delete perms q) other,
  get-assign perms q true p,
  get-assign perms q true "*",
  get-delete perms q p,
  get-delete perms q "*",
)

-- After MapResourceAction the permission that it names is asked for at this resource and action,
-- and at all others the one that was.
permission-map :
    (a : RbacAuthorizer) (resource action p r c : String)
    → get_permission_for_resource_action (map_resource_action a resource action p) r c ≡ (
        if str_eq resource r && str_eq action c
        then p
        else get_permission_for_resource_action a r c)
unfolding get_permission_for_resource_action map_resource_action
permission-map a resource action p r c = ground (
  arith,
  eq_iff resource r,
  get-assign a.resource_action_permissions resource
      (assign (or_empty (get a.resource_action_permissions resource)) action p) r,
  get-assign (or_empty (get a.resource_action_permissions resource)) action p c,
  get_empty {A = String} c,
)
