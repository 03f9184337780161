-- ===== src/Roles/Tests.antt =====
-- The theorems on roles at concrete requests.
use enix_backend.Base.{◌≡◌, refl, ◌↔◌, ◌⊎◌, true, false, Option, none, some, List, [], ◌∷◌, any}
use enix_backend.Http.{ok, ◌>>=◌}
use enix_backend.Session.{SessionUser, Request, session_user}
use enix_backend.Roles.{
  Role, administrator, chief_executive, Permission, user_read, role_assign, role_manage,
  role_has_any_permission,
}
use enix_backend.Roles.Guard.{role_guard, admin_guard, auth_guard, admin_roles}
use enix_backend.Roles.Texts.{Member}
use enix_backend.Roles.Access.{IsAdmitted, role_guard_iff, admin_guard_iff, auth_guard-admin_guard}
use enix_backend.Roles.Ability.{Casl, can, manages, covers, create_for_user, can-eq-manages}

abbrev an_admin : SessionUser
an_admin = record {
  id = 1;
  email = "a@example.org";
  username = "a";
  display_name = "A";
  role = administrator;
  websocket_id = 2;
  is_verified = true;
}

abbrev a_request : Request
a_request = record {
  user = none;
  session = some (record { user = some an_admin; pending_login = none });
}

role_guard_iff_example :
    (role_guard (some (administrator ∷ [])) (some (user_read ∷ [])) a_request ≡ ok tt) ↔ (
      ((◌≡◌ {A = Option (List Role)} (some (administrator ∷ [])) none)
        × (◌≡◌ {A = Option (List Permission)} (some (user_read ∷ [])) none))
      ⊎ IsAdmitted (some (administrator ∷ [])) (some (user_read ∷ [])) a_request)
role_guard_iff_example =
    role_guard_iff (some (administrator ∷ [])) (some (user_read ∷ [])) a_request

admin_guard_iff_example :
    (admin_guard a_request ≡ ok tt)
    ↔ (role_has_any_permission administrator (role_assign ∷ role_manage ∷ []) ≡ true)
admin_guard_iff_example = admin_guard_iff a_request an_admin refl

auth_guard-admin_guard_example : ((auth_guard false a_request >>= admin_guard) ≡ ok tt) ↔ (
    (user : SessionUser) × (session_user a_request.session ≡ some user)
    × Member user.role admin_roles)
auth_guard-admin_guard_example = auth_guard-admin_guard a_request

-- an engine that answers as documented
abbrev documented : Casl
documented = record {
  allows = λ rules action subject. any (covers action subject) rules;
  allows_lem = λ rules action subject. refl;
}

can-eq-manages_example :
    can documented chief_executive user_read "User"
    ≡ any (manages "User") (create_for_user chief_executive)
can-eq-manages_example = can-eq-manages documented chief_executive user_read "User"
