-- ===== src/Rbac/Examples.antt =====
-- auth/authorization/rbac.go: tests, and the theorems at concrete roles.
use eidola.Common.{String, ◌≡◌, refl, inl, true, false, none, some, [], ◌∷◌, arith}
use eidola.Common.Dict.{get, assign}
use eidola.Rbac.Defs.{
  RbacAuthorizer, has_permission, add_permission, user_role, intercept, map_method_to_permission,
  map_service_to_resource,
}
use eidola.Rbac.Access.{intercept-map_method, intercept-unknown}

abbrev same : String → String
same s = s

added : has_permission (add_permission user_role "user" "delete") "user" "delete" ≡ true
unfolding has_permission add_permission get assign
added = refl

-- The service "s.Data" is mapped to the resource "data", and the role "user" exists.
abbrev served : RbacAuthorizer
served = record {
  roles = record { key = "user"; value = user_role } ∷ [];
  permissions = record { key = "/s.Data/"; value = "data" ∷ [] } ∷ [];
}

served_is_mapped :
    map_service_to_resource (record served { permissions = [] }) "s.Data" "data" ≡ served
unfolding map_service_to_resource get assign
served_is_mapped = refl

intercept-map_method_example :
    intercept same
      (map_method_to_permission served "/s.Data/Put" "data" "create")
      (some ("user" ∷ []))
      "/s.Data/Put"
    ≡ has_permission user_role "data" "create"
unfolding get
intercept-map_method_example =
    intercept-map_method same served "/s.Data/Put" "user" [] user_role "data" "create" refl refl
      (ground arith) (inl refl) refl

intercept-unknown_example :
    (intercept same served none "/s.Data/Get" ≡ false)
    × (intercept same served (some []) "/s.Data/Get" ≡ false)
    × (intercept same served (some ("guest" ∷ [])) "/s.Data/Get" ≡ false)
unfolding get
intercept-unknown_example = intercept-unknown same served "guest" "/s.Data/Get" [] refl
