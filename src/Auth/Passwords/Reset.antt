-- ===== src/Auth/Passwords/Reset.antt =====
-- The tokens of `forgotPassword` and `resetPassword`.
use Prim.Native.String.{String}
use enix_backend.Base.{
  ℕ, ◌+◌, ◌≤◌, ◌≡◌, refl, inl, inr, true, false, Bool-cases, none, some, List, [], ◌∷◌, arith, ◌==◌,
  ==_refl, find?, All, Option-cases,
}
use text.Mathlib.TextPositions.{eq_refl}
use enix_backend.Base.Rows.{find?-update_where, update_where, by_key, All-update_where}
use enix_backend.Http.{ok, err, bad_request}
use enix_backend.Effects.{final, result}
use enix_backend.Accounts.{Accounts, User, Security, user_key, find_user, find_user_by_email}
use enix_backend.Auth.Passwords.{
  with_reset_token, reset_password, forgot_password, holds_token, find_by_reset_token, on_security,
  without_reset_token, is_over, reset_expires,
}

-- Whoever holds the token has this identifier.
abbrev pub OnlyHolder : String → ℕ → Accounts → Type 0
OnlyHolder token k a = All (λ u. holds_token token u ≡ true → u.id ≡ k) a.users

not_held :
    (token : String) (us : List User)
    → All (λ u. holds_token token u ≡ false) us
    → find? (holds_token token) us ≡ none
not_held token [] h = refl
not_held token (u ∷ us) (e, h) = rw e (not_held token us h)

cleared :
    (token : String) (u : User) → holds_token token (on_security without_reset_token u) ≡ false
cleared token u = elim (Option-cases u.security) [
  | inl bare ↦ rw bare refl
  | inr (s, has) ↦ rw has refl
]

-- nobody holds the token once it is taken from the only user who may
dropped :
    (token password : String) (k : ℕ) (us : List User)
    → All (λ u. holds_token token u ≡ true → u.id ≡ k) us
    → All
        (λ u. holds_token token u ≡ false)
        (update_where
          (by_key user_key k)
          (on_security without_reset_token)
          (update_where (by_key user_key k) (λ u. record u { password = password }) us))
dropped token password k us h =
    All-update_where (λ u. holds_token token u ≡ true → u.id ≡ k) _ (by_key user_key k) _ _
      (λ u only his. cleared token u)
      (λ u only other. elim (Bool-cases (holds_token token u)) [
        | inl holds ↦ let same : u.id ≡ k = only holds in ground (arith, same)
        | inr free ↦ free
      ])
      (All-update_where _ (λ u. holds_token token u ≡ true → u.id ≡ k) (by_key user_key k) _ us
        (λ u only his. only) (λ u only other. only) h)

-- A password reset with a token that only one user holds, cannot be repeated: once it has succeeded,
-- the token is refused as invalid if it is given next, at whatever time.
pub reset_password-once :
    (hash : String → String) (now later : ℕ) (token first second : String) (a : Accounts) {u : User}
    → find_by_reset_token token a ≡ some u
    → OnlyHolder token u.id a
    → result (reset_password hash now token first a) ≡ ok tt
    → result
        (reset_password hash later token second (final (reset_password hash now token first a)))
      ≡ err (bad_request "Invalid or expired password reset token")
unfolding reset_password
reset_password-once hash now later token first second a {u} found only done =
    elim (Bool-cases (is_over now (reset_expires u.security))) [
      | inl over ↦ ground (arith, found, over)
      | inr valid ↦ elim (Option-cases (find_user u.id a)) [
        | inl gone ↦ ground (arith, found, valid, gone)
        | inr (v, here) ↦
            let none_left = not_held token _ (dropped token (hash first) u.id a.users only) in
            rw found (rw valid (rw here (rw none_left refl)))
      ]
    ]

found_holder :
    (token : String) (k : ℕ) (g : User → User) (us : List User) {u : User}
    → All (λ v. holds_token token v ≡ false) us
    → find? (by_key user_key k) us ≡ some u
    → holds_token token (g u) ≡ true
    → find? (holds_token token) (update_where (by_key user_key k) g us) ≡ some (g u)
unfolding update_where
found_holder token k g [] free found holds = cc
found_holder token k g (v ∷ us) {u} (e, free) found holds = elim (Bool-cases (user_key v == k)) [
  | inl his ↦ let same : v ≡ u = ground (arith, found, his) in rw his (rw same (rw holds refl))
  | inr other ↦
      let later : find? (by_key user_key k) us ≡ some u = ground (arith, found, other) in
      rw other (rw e (found_holder token k g us {u = u} free later holds))
]

-- If a user with a security record asks for a reset, nobody holds the drawn token before and the
-- user that the identifier finds is the same, then a reset with that token within an hour succeeds,
-- gives that user the new password and takes the token away.
pub forgot_password-reset_password :
    (hash : String → String) (now later : ℕ) (email token new_password : String) (a : Accounts)
    {u : User} {s : Security}
    → find_user_by_email email a ≡ some u
    → find_user u.id a ≡ some u
    → u.security ≡ some s
    → All (λ v. holds_token token v ≡ false) a.users
    → later ≤ now + 3600000
    → let b = final (forgot_password now email token a) in
      (result (reset_password hash later token new_password b) ≡ ok tt)
      × (find_user u.id (final (reset_password hash later token new_password b))
          ≡ some
              (record u { password = hash new_password; security = some (without_reset_token s) }))
unfolding forgot_password reset_password
forgot_password-reset_password hash now later email token new_password a {u} {s} known here has free
      soon =
    let mark : User → User = on_security (with_reset_token token (now + 3600000)) in
    let holds : holds_token token (mark u) ≡ true = rw has (eq_refl token) in
    let held = found_holder token u.id mark a.users free here holds in
    let marked : find? (by_key user_key u.id) (update_where (by_key user_key u.id) mark a.users)
        ≡ some (mark u) =
      find?-update_where (by_key user_key u.id) (by_key user_key u.id) mark a.users (λ x. refl) here
        (==_refl u.id) in
    let valid : is_over later (reset_expires (mark u).security) ≡ false = rw has (ground arith) in
    let change : User → User = λ v. record v { password = hash new_password } in
    let changed =
      find?-update_where (by_key user_key u.id) (by_key user_key u.id) change
        (update_where (by_key user_key u.id) mark a.users) (λ x. refl) marked (==_refl u.id) in
    let ended =
      find?-update_where (by_key user_key u.id) (by_key user_key u.id)
        (on_security without_reset_token)
        (update_where (by_key user_key u.id) change
          (update_where (by_key user_key u.id) mark a.users))
        (λ x. refl) changed (==_refl u.id) in
    let plain : on_security without_reset_token (change (mark u))
        ≡ record u { password = hash new_password; security = some (without_reset_token s) } =
      simp has in
    simp (known, held, valid, marked, ended, plain) (refl, refl)
