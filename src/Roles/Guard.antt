-- ===== src/Roles/Guard.antt =====
-- The guards of a route: RoleGuard (src/security/roles/assets/guard/role.guard.ts), AdminGuard and
-- AuthGuard (src/security/auth/guards). What a decorator set on the route is an argument.
use Prim.Native.String.{String}
use Prim.Native.String
use enix_backend.Base.{Bool, Option, none, some, List, [], ◌∷◌, map, if◌then◌else◌, not, ⊤}
use enix_backend.Http.{Result, ok, err, forbidden, unauthorized, ◌>>=◌, ◌>>◌, throw_if, or_throw}
use enix_backend.Session.{Request, request_user, session_user}
use enix_backend.Roles.{
  includes_role, Role, administrator, founder, chief_executive, Permission, role_text,
  permission_text, role_has_any_permission,
}

-- `texts.join(', ')`
unfoldable pub join : List String → String
join [] = ""
join (s ∷ []) = s
join (s ∷ t ∷ ts) = String.◌++◌ s (String.◌++◌ ", " (join (t ∷ ts)))

-- `list && list.length > 0`
abbrev pub is_given {ℓ} : {A : Type ℓ} → Option (List A) → Option (List A)
is_given none = none
is_given (some []) = none
is_given (some (x ∷ xs)) = some (x ∷ xs)

unfoldable pub check_roles : Option (List Role) → Role → Result ⊤
unfolding includes_role join
check_roles required role = elim (is_given required) [
  | none ↦ ok tt
  | some rs ↦
      throw_if (not (includes_role rs role))
        (forbidden (String.◌++◌ "Access denied. Required roles: " (join (map role_text rs))))
]

unfoldable pub check_permissions : Option (List Permission) → Role → Result ⊤
unfolding join
check_permissions required role = elim (is_given required) [
  | none ↦ ok tt
  | some ps ↦ throw_if (not (role_has_any_permission role ps)) (
      forbidden
        (String.◌++◌ "Access denied. Required permissions: " (join (map permission_text ps))))
]

-- `RoleGuard.canActivate`, on the roles and permissions that the route's decorators require
unfoldable pub role_guard : Option (List Role) → Option (List Permission) → Request → Result ⊤
unfolding check_roles check_permissions
role_guard none none request = ok tt
role_guard required_roles required_permissions request = do
  user ← or_throw (request_user request) (forbidden "User not authenticated")
  check_roles required_roles user.role
  check_permissions required_permissions user.role

abbrev pub admin_roles : List Role
admin_roles = administrator ∷ founder ∷ chief_executive ∷ []

-- `AdminGuard.canActivate`
unfoldable pub admin_guard : Request → Result ⊤
unfolding includes_role
admin_guard request = do
  user ← or_throw (request_user request) (forbidden "User not authenticated")
  throw_if (not (includes_role admin_roles user.role))
      (forbidden "Access denied. Administrator privileges required.")

-- `AuthGuard.canActivate`: the request that goes on has the session's user attached.
unfoldable pub auth_guard : Bool → Request → Result Request
auth_guard is_public request =
    if is_public then ok request else elim (session_user request.session) [
      | none ↦ err (unauthorized "Please login to access this resource")
      | some user ↦ ok (record request { user = some user })
    ]
