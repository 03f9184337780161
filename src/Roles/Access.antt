-- ===== src/Roles/Access.antt =====
-- Whom the guards let through.
use enix_backend.Base.{
  ◌≡◌, refl, sym, ◌∙◌, subst, ◌↔◌, ◌⊎◌, inl, inr, Bool, true, false, not, Option, none, some, List,
  [], ◌∷◌, Option-cases, Bool-cases, ⊤,
}
use enix_backend.Http.{Result, ok, err, ◌>>=◌, Error, or_throw, throw_if, forbidden}
use enix_backend.Session.{SessionUser, Request, request_user, session_user}
use enix_backend.Roles.{
  role_text, permission_text, Role, Permission, role_assign, role_manage, administrator,
  includes_role, get_role_permissions, role_has_any_permission,
}
use enix_backend.Roles.Guard.{
  check_roles, check_permissions, role_guard, admin_roles, admin_guard, auth_guard,
}
use enix_backend.Roles.Texts.{Member, includes_role_iff, role_has_any_permission_iff}

-- The role is one of the required ones, if any are required.
abbrev pub HasRole : Option (List Role) → Role → Type 0
HasRole none role = ⊤
HasRole (some []) role = ⊤
HasRole (some (r ∷ rs)) role = Member role (r ∷ rs)

-- The table grants the role one of the required permissions, if any are required.
abbrev pub HasPermission : Option (List Permission) → Role → Type 0
HasPermission none role = ⊤
HasPermission (some []) role = ⊤
HasPermission (some (p ∷ ps)) role =
    (q : Permission) × Member q (p ∷ ps) × Member q (get_role_permissions role)

Result-cases : (r : Result ⊤) → (r ≡ ok tt) ⊎ ((e : Error) × (r ≡ err e))
Result-cases (ok tt) = inl refl
Result-cases (err e) = inr (e, refl)

check_roles_iff :
    (required : Option (List Role)) (role : Role)
    → (check_roles required role ≡ ok tt) ↔ HasRole required role
unfolding check_roles
check_roles_iff none role = (λ _. tt, λ _. refl)
check_roles_iff (some []) role = (λ _. tt, λ _. refl)
check_roles_iff (some (r ∷ rs)) role =
    let (to, from) = includes_role_iff (r ∷ rs) role in
    elim (Bool-cases (includes_role (r ∷ rs) role)) [
      | inl e ↦ (λ _. to e, λ _. rw e)
      | inr e ↦ (λ h. absurd (cc (rw e at h)), λ m. absurd (cc (from m)))
    ]

check_permissions_iff :
    (required : Option (List Permission)) (role : Role)
    → (check_permissions required role ≡ ok tt) ↔ HasPermission required role
unfolding check_permissions
check_permissions_iff none role = (λ _. tt, λ _. refl)
check_permissions_iff (some []) role = (λ _. tt, λ _. refl)
check_permissions_iff (some (p ∷ ps)) role =
    let (to, from) = role_has_any_permission_iff role (p ∷ ps) in
    elim (Bool-cases (role_has_any_permission role (p ∷ ps))) [
      | inl e ↦ (λ _. to e, λ _. rw e)
      | inr e ↦ (λ h. absurd (cc (rw e at h)), λ m. absurd (cc (from m)))
    ]

-- The user behind the request, with a required role and a required permission.
abbrev pub IsAdmitted : Option (List Role) → Option (List Permission) → Request → Type 0
IsAdmitted rs ps request =
    (user : SessionUser) × (request_user request ≡ some user)
    × HasRole rs user.role
    × HasPermission ps user.role

checked_iff :
    (rs : Option (List Role)) (ps : Option (List Permission)) (role : Role)
    → ((check_roles rs role >>= λ _. check_permissions ps role) ≡ ok tt)
      ↔ (HasRole rs role × HasPermission ps role)
checked_iff rs ps role =
    let (to, from) = check_roles_iff rs role in
    let (to', from') = check_permissions_iff ps role in
    elim (Result-cases (check_roles rs role)) [
      | inl e ↦ (λ h. (to e, to' (rw e at h)), λ (_, k). rw e (from' k))
      | inr (x, e) ↦ (λ h. absurd (cc (rw e at h)), λ (r, _). absurd (cc (from r)))
    ]

-- With something required, the guard asks for the user and makes both checks.
guard_checks :
    (rs : Option (List Role)) (ps : Option (List Permission)) (request : Request)
    → ((rs ≡ none) × (ps ≡ none))
      ⊎ (role_guard rs ps request ≡ (
          or_throw (request_user request) (forbidden "User not authenticated") >>= λ user.
          check_roles rs user.role >>= λ _. check_permissions ps user.role))
unfolding role_guard
guard_checks none none request = inl (refl, refl)
guard_checks none (some ps) request = inr refl
guard_checks (some rs) ps request = inr refl

-- A route that requires roles or permissions runs exactly for a user, known to the request, whose
-- role is among the required roles and whose entry in the permission table holds one of the required
-- permissions; a route that requires neither runs for everybody.
pub role_guard_iff :
    (rs : Option (List Role)) (ps : Option (List Permission)) (request : Request)
    → (role_guard rs ps request ≡ ok tt) ↔ (((rs ≡ none) × (ps ≡ none)) ⊎ IsAdmitted rs ps request)
unfolding role_guard
role_guard_iff rs ps request = elim (guard_checks rs ps request) [
  | inl (r, p) ↦ (λ _. inl (r, p), λ _. rw (r, p))
  | inr e ↦ elim (Option-cases (request_user request)) [
    | inl missing ↦
        let refused : role_guard rs ps request ≡ err (forbidden "User not authenticated") =
          rw missing at e in
        (
          λ h. absurd (cc (refused, h)),
          elim [ inl (r, p) ↦ rw (r, p) | inr (user, known, _, _) ↦ absurd (cc (missing, known)) ],
        )
    | inr (user, known) ↦
        let checked : role_guard rs ps request
            ≡ (check_roles rs user.role >>= λ _. check_permissions ps user.role) =
          rw known at e in
        let (to, from) = checked_iff rs ps user.role in
        (
          λ h. let (r, p) = to (sym checked ∙ h) in inr (user, known, r, p),
          elim [
            | inl (r, p) ↦ rw (r, p)
            | inr (other, known', r, p) ↦
                let same : other ≡ user = cc (known, known') in
                checked
                ∙ from (subst (λ u. HasRole rs u.role × HasPermission ps u.role) same (r, p))
          ],
        )
  ]
]

-- The guard's list and the table agree on every role.
admins_agree :
    (role : Role)
    → includes_role admin_roles role ≡ role_has_any_permission role (role_assign ∷ role_manage ∷ [])
unfolding includes_role role_has_any_permission role_text permission_text
admins_agree administrator = refl
admins_agree _ = refl

admin_check_iff : (b : Bool) (e : Error) → (throw_if (not b) e ≡ ok tt) ↔ (b ≡ true)
admin_check_iff true e = (λ _. refl, λ _. refl)
admin_check_iff false e = (λ h. absurd (cc), λ h. absurd (cc))

-- The administrators' guard admits a user exactly if the permission table lets the user's role
-- assign or manage roles, so the guard's own list of roles agrees with the table.
pub admin_guard_iff :
    (request : Request) (user : SessionUser)
    → request_user request ≡ some user
    → (admin_guard request ≡ ok tt)
      ↔ (role_has_any_permission user.role (role_assign ∷ role_manage ∷ []) ≡ true)
unfolding admin_guard
admin_guard_iff request user e = rw (e, ← admins_agree) (admin_check_iff _ _)

-- Behind the login guard of a route that is not public, the administrators' guard decides by the
-- session's user alone: a user that the request brought along is replaced.
pub auth_guard-admin_guard :
    (request : Request)
    → ((auth_guard false request >>= admin_guard) ≡ ok tt) ↔ (
        (user : SessionUser) × (session_user request.session ≡ some user)
        × Member user.role admin_roles)
unfolding auth_guard admin_guard
auth_guard-admin_guard request = elim (Option-cases (session_user request.session)) [
  | inl missing ↦ rw missing (λ h. absurd (cc), λ (u, k, _). absurd (cc k))
  | inr (user, known) ↦
      let (to, from) = admin_check_iff (includes_role admin_roles user.role) _ in
      let (to', from') = includes_role_iff admin_roles user.role in
      rw known (
        λ h. (user, refl, to' (to h)),
        λ (other, k, m).
            let same : other ≡ user = cc k in
            from (from' (subst (λ (u : SessionUser). Member u.role admin_roles) same m)),
      )
]
