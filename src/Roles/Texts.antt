-- ===== src/Roles/Texts.antt =====
-- The texts of the enums name their members: comparing texts is comparing members.
use Prim.Native.String.{String}
use text.Mathlib.Text.{◌==◌ as str_eq}
use text.Mathlib.TextEquality.{eq_iff}
use enix_backend.Base.{
  ◌≡◌, refl, subst, ap, ◌↔◌, Bool, true, Option, some, List, [], ◌∷◌, any, find?, arith, ◌⊎◌, inl,
  inr, Bool-cases,
}
use enix_backend.Roles.{
  Role, administrator, Permission, user_read, role_text, permission_text, get_all_roles,
  get_all_permissions, role_eq, permission_eq, includes, includes_role, role_has_any_permission,
  get_role_permissions,
}

role_of : String → Option Role
role_of s = find? (λ r. str_eq (role_text r) s) get_all_roles

role_of_lem : (r : Role) → role_of (role_text r) ≡ some r
unfolding role_of role_text get_all_roles
role_of_lem administrator = refl
role_of_lem _ = refl

permission_of : String → Option Permission
permission_of s = find? (λ p. str_eq (permission_text p) s) get_all_permissions

permission_of_lem : (p : Permission) → permission_of (permission_text p) ≡ some p
unfolding permission_of permission_text get_all_permissions
permission_of_lem user_read = refl
permission_of_lem _ = refl

role_text_inj : (r s : Role) → role_text r ≡ role_text s → r ≡ s
role_text_inj r s e = cc (role_of_lem r, role_of_lem s, ap role_of e)

permission_text_inj : (p q : Permission) → permission_text p ≡ permission_text q → p ≡ q
permission_text_inj p q e = cc (permission_of_lem p, permission_of_lem q, ap permission_of e)

pub role_eq_iff : (r s : Role) → (role_eq r s ≡ true) ↔ (r ≡ s)
unfolding role_eq
role_eq_iff r s = (λ h. role_text_inj r s ((eq_iff _ _).0 h), λ e. (eq_iff _ _).1 (ap role_text e))

pub permission_eq_iff : (p q : Permission) → (permission_eq p q ≡ true) ↔ (p ≡ q)
unfolding permission_eq
permission_eq_iff p q =
    (λ h. permission_text_inj p q ((eq_iff _ _).0 h), λ e. (eq_iff _ _).1 (ap permission_text e))

-- Membership with the place kept.
abbrev pub Member : {A : Type 0} → A → List A → Type 0
Member a [] = ⊥
Member a (x ∷ xs) = (x ≡ a) ⊎ Member a xs

module _ {A : Type 0} (p : A → Bool) where
  any_to : (xs : List A) → any p xs ≡ true → (a : A) × Member a xs × (p a ≡ true)
  any_to [] h = cc
  any_to (x ∷ xs) h = elim (Bool-cases (p x)) [
    | inl e ↦ (x, inl refl, e)
    | inr e ↦ let (a, m, q) = any_to xs (ground arith) in (a, inr m, q)
  ]

  any_from : (xs : List A) (a : A) → Member a xs → p a ≡ true → any p xs ≡ true
  any_from [] a m q = absurd m
  any_from (x ∷ xs) a (inl e) q = ground arith
  any_from (x ∷ xs) a (inr m) q = ground (arith, any_from xs a m q)

  -- A search by a test succeeds exactly when a member passes it.
  pub any_iff : (xs : List A) → (any p xs ≡ true) ↔ ((a : A) × Member a xs × (p a ≡ true))
  any_iff xs = (any_to xs, λ (a, m, q). any_from xs a m q)

-- `includes` is membership, of permissions and of roles.
pub includes_iff : (ps : List Permission) (p : Permission) → (includes ps p ≡ true) ↔ Member p ps
unfolding includes
includes_iff ps p = (
  λ h.
      let (q, m, e) = (any_iff (λ q. permission_eq q p) ps).0 h in
      subst (λ x. Member x ps) ((permission_eq_iff q p).0 e) m,
  λ m. any_from (λ q. permission_eq q p) ps p m ((permission_eq_iff p p).1 refl),
)

pub includes_role_iff : (rs : List Role) (r : Role) → (includes_role rs r ≡ true) ↔ Member r rs
unfolding includes_role
includes_role_iff rs r = (
  λ h.
      let (q, m, e) = (any_iff (λ q. role_eq q r) rs).0 h in
      subst (λ x. Member x rs) ((role_eq_iff q r).0 e) m,
  λ m. any_from (λ q. role_eq q r) rs r m ((role_eq_iff r r).1 refl),
)

-- A role has any of the permissions exactly when its entry in the table holds one of them.
pub role_has_any_permission_iff :
    (role : Role) (ps : List Permission)
    → (role_has_any_permission role ps ≡ true)
      ↔ ((p : Permission) × Member p ps × Member p (get_role_permissions role))
unfolding role_has_any_permission
role_has_any_permission_iff role ps =
    let granted = get_role_permissions role in
    let found = any_iff (λ p. includes granted p) ps in
    (
      λ h. let (p, m, e) = found.0 h in (p, m, (includes_iff granted p).0 e),
      λ (p, m, g). found.1 (p, m, (includes_iff granted p).1 g),
    )
