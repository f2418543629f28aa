-- ===== src/Rbac/Roles.antt =====
-- auth/authorization/rbac.go: what a role permits, before and after it is changed.
use eidola.Common.{
  ◌≡◌, refl, ◌≢◌, true, false, not, ◌&&◌, ◌||◌, List, [], ◌∷◌, ◌++◌, arith, str_eq, eq_iff,
  if◌then◌else◌, length, keep,
}
use eidola.Common.Dict.{get, get-assign, get-delete}
use eidola.Rbac.Defs.{
  Permission, Resource, permission_admin, Role, holds, has_permission, or_empty, add_permission,
  has_resource, remove_permission, admin_role,
}

holds-append :
    (ps : List Permission) (q p : Permission) → holds (ps ++ q ∷ []) p ≡ (holds ps p || str_eq q p)
holds-append [] q p = ground arith
holds-append (x ∷ ps) q p = ground (arith, holds-append ps q p)

holds-without :
    (ps : List Permission) (q p : Permission)
    → holds (keep (λ x. not (str_eq x q)) ps) p ≡ (not (str_eq q p) && holds ps p)
holds-without [] q p = ground arith
holds-without (x ∷ ps) q p =
    ground (arith, holds-without ps q p, eq_iff x q, eq_iff x p, eq_iff q p)

holds-none : (ps : List Permission) (p : Permission) → length ps ≡ 0 → holds ps p ≡ false
holds-none [] p e = refl
holds-none (x ∷ ps) p e = absurd (omega arith)

has_permission-or_empty :
    (r : Role) (resource : Resource) (p : Permission)
    → has_permission r resource p ≡ (
        holds (or_empty (get r.permissions resource)) permission_admin
        || holds (or_empty (get r.permissions resource)) p)
unfolding has_permission or_empty
has_permission-or_empty r resource p = ground arith

-- After AddPermission a role permits what it did before and, on the resource of the new permission,
-- that permission, or every permission if the new one is "admin".
has_permission-add_permission :
    (r : Role) (resource at : Resource) (q p : Permission)
    → has_permission (add_permission r resource q) at p
      ≡ (has_permission r at p || (str_eq resource at && (str_eq q permission_admin || str_eq q p)))
unfolding add_permission has_permission
has_permission-add_permission r resource at q p =
    let ps = or_empty (get r.permissions resource) in
    ground (
      arith,
      get-assign r.permissions resource (ps ++ q ∷ []) at,
      holds-append ps q permission_admin,
      holds-append ps q p,
      eq_iff resource at,
      eq_iff q permission_admin,
      eq_iff q p,
    )

-- After RemovePermission of a permission a role permits on another resource what it did before,
-- and on this one what its other permissions allow.
has_permission-remove_permission :
    (r : Role) (resource at : Resource) (q p : Permission)
    → has_permission (remove_permission r resource q) at p ≡ (
        if str_eq resource at
        then (not (str_eq q permission_admin)
            && holds (or_empty (get r.permissions at)) permission_admin)
          || (not (str_eq q p) && holds (or_empty (get r.permissions at)) p)
        else has_permission r at p)
unfolding remove_permission has_permission or_empty
has_permission-remove_permission r resource at q p =
    let ps = or_empty (get r.permissions resource) in
    let rest = keep (λ x. not (str_eq x q)) ps in
    ground (
      arith,
      get-assign r.permissions resource rest at,
      get-delete r.permissions resource at,
      holds-without ps q permission_admin,
      holds-without ps q p,
      holds-none rest permission_admin,
      holds-none rest p,
      eq_iff resource at,
      eq_iff q permission_admin,
      eq_iff q p,
    )

-- The role "admin" of SetupDefaultRoles, which has the permission "admin" on the resource "*",
-- permits nothing on any other resource, though HasResource reports that it may use it.
admin_role-denied :
    (resource : Resource) (p : Permission)
    → resource ≢ "*"
    → (has_permission admin_role resource p ≡ false) × (has_resource admin_role resource ≡ true)
unfolding has_permission has_resource get
admin_role-denied resource p ne = ground (arith, eq_iff "*" resource)
