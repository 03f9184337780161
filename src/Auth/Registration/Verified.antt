-- ===== src/Auth/Registration/Verified.antt =====
-- From the registration to the first login.
use text.Mathlib.Text.{◌==◌ as str_eq}
use text.Mathlib.TextPositions.{eq_refl}
use enix_backend.Base.{
  ℕ, ◌≡◌, refl, ap, Bool, true, false, none, some, List, [], ◌∷◌, ◌++◌, find?, ==_refl, All,
}
use enix_backend.Base.Rows.{update_where, by_key}
use enix_backend.Http.{forbidden}
use enix_backend.Roles.{member}
use enix_backend.Session.{Session, SessionUser}
use enix_backend.Effects.{returned, threw, final}
use enix_backend.Accounts.{Accounts, User, user_key, find_user_by_email}
use enix_backend.Twofa.{Tools}
use enix_backend.Auth.{login, login_successful, without_password}
use enix_backend.Auth.Passwords.{on_security}
use enix_backend.Auth.Registration.{
  Registration, new_user, register, create, verify_email, with_verification, verified_at,
  holds_verification,
}

module _ {A : Type 0} (p : A → Bool) where
  find-none : (xs : List A) → All (λ x. p x ≡ false) xs → find? p xs ≡ none
  find-none [] h = refl
  find-none (x ∷ xs) (e, h) = rw e (find-none xs h)

  find-last :
      (xs : List A) (x : A)
      → All (λ y. p y ≡ false) xs
      → p x ≡ true
      → find? p (xs ++ x ∷ []) ≡ some x
  find-last [] x h e = rw e refl
  find-last (y ∷ xs) x (d, h) e = rw d (find-last xs x h e)

  update-last :
      (f : A → A) (xs : List A) (x : A)
      → All (λ y. p y ≡ false) xs
      → p x ≡ true
      → update_where p f (xs ++ x ∷ []) ≡ xs ++ f x ∷ []
  unfolding update_where
  update-last f [] x h e = rw e refl
  update-last f (y ∷ xs) x (d, h) e = rw d (ap (λ l. y ∷ l) (update-last f xs x h e))

-- Nothing that identifies the new user is taken.
pub record IsNew (r : Registration) (a : Accounts) : Type 0 where
  pub ids : All (λ u. by_key user_key r.id u ≡ false) a.users
  pub emails : All (λ u. str_eq u.email r.email ≡ false) a.users
  pub usernames : All (λ u. str_eq u.username r.username ≡ false) a.users
  pub display_names : All (λ u. str_eq u.display_name r.username ≡ false) a.users
  pub tokens : All (λ u. holds_verification r.token u ≡ false) a.users

module _ (tools : Tools) (r : Registration) (a : Accounts) (new : IsNew r a) where
  abbrev with_last : User → Accounts
  with_last u = record a { users = a.users ++ u ∷ [] }

  abbrev registered : User
  registered = on_security (with_verification r.token) (new_user tools.hash r)

  -- the new user, once the address is verified
  abbrev pub confirmed : ℕ → User
  confirmed now = on_security (verified_at now) registered

  change-last :
      (f : User → User) (u : User)
      → u.id ≡ r.id
      → update_where (by_key user_key r.id) f (a.users ++ u ∷ []) ≡ a.users ++ f u ∷ []
  change-last f u same =
      update-last (by_key user_key r.id) f a.users u new.ids (rw same (==_refl r.id))

  create-eq :
      create tools.hash r a ≡ returned (new_user tools.hash r) (with_last (new_user tools.hash r))
  unfolding create
  create-eq = rw (find-none (λ u. str_eq u.email r.email) a.users new.emails) (
      rw (find-none (λ u. str_eq u.username r.username) a.users new.usernames)
        (rw (find-none (λ u. str_eq u.display_name r.username) a.users new.display_names) refl))

  register-eq :
      register tools.hash r a
      ≡ returned (without_password (new_user tools.hash r)) (with_last registered)
  unfolding register
  register-eq = rw (find-none (λ u. str_eq u.email r.email) a.users new.emails) (
      rw (find-none (λ u. str_eq u.username r.username) a.users new.usernames) (
        rw create-eq (
          rw (change-last (on_security (with_verification r.token)) (new_user tools.hash r) refl)
            refl)))

  verify_email-eq :
      (now : ℕ)
      → verify_email now r.token (with_last registered)
        ≡ returned (without_password (confirmed now)) (with_last (confirmed now))
  unfolding verify_email
  verify_email-eq now =
      rw (find-last (holds_verification r.token) a.users registered new.tokens (eq_refl r.token)) (
        rw (change-last (on_security (verified_at now)) registered refl) (
          rw (find-last (by_key user_key r.id) a.users (confirmed now) new.ids (==_refl r.id))
            refl))

  -- what the session then says of the user
  abbrev pub as_member : SessionUser
  as_member = record {
    id = r.id;
    email = r.email;
    username = r.username;
    display_name = r.username;
    role = member;
    websocket_id = r.websocket_id;
    is_verified = true;
  }

  found : (u : User) → u.email ≡ r.email → find_user_by_email r.email (with_last u) ≡ some u
  found u same =
      find-last (λ v. str_eq v.email r.email) a.users u new.emails (rw same (eq_refl r.email))

  -- If the identifier, the address, the name and the token of a registration are new, nobody shows
  -- the name, and the hash of its password compares with it, then after the registration a login is
  -- refused, and leaves the session as it was, until the address is verified; after a verification
  -- with the token, however late, the login is answered and the session is that of the new user, a
  -- verified member under the registered names.
  pub register-verify_email-login :
      (now at : ℕ) (σ : Session)
      → tools.compare r.password (tools.hash r.password) ≡ true
      → let b : Accounts = final (register tools.hash r a) in
        let c : Accounts = final (verify_email now r.token b) in
        (login tools true at r.email r.password (record { accounts = b; session = some σ })
          ≡ threw
              (forbidden "Please verify your email before logging in")
              (record { accounts = b; session = some σ }))
        × (login tools true at r.email r.password (record { accounts = c; session = some σ })
            ≡ returned
                (login_successful (without_password (confirmed now)))
                (record { accounts = c; session = some (record σ { user = some as_member }) }))
  unfolding login
  register-verify_email-login now at σ right =
      let before : final (register tools.hash r a) ≡ with_last registered = ap final register-eq in
      let after : final (verify_email now r.token (with_last registered))
          ≡ with_last (confirmed now) =
        ap final (verify_email-eq now) in
      rw before (
        rw after (
          rw (found registered refl) (rw right refl),
          rw (found (confirmed now) refl) (rw right refl),
        ))
