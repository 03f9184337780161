-- ===== src/Auth/SecondStep.antt =====
-- The second step of a login: `verifyLogin2fa`.
use Prim.Native.String.{String}
use text.Mathlib.Text.{◌==◌ as str_eq}
use text.Mathlib.TextEquality.{eq_iff}
use enix_backend.Base.{
  ℕ, ⊤, ◌≡◌, refl, ◌⊎◌, inl, inr, Bool, true, false, Bool-cases, Option, none, some, Option-cases,
  arith, ◌==◌,
}
use enix_backend.Http.{ok, unauthorized}
use enix_backend.Session.{PendingLogin, Session}
use enix_backend.Effects.{Ended, after, pure, ◌>>◌, result, returned, threw}
use enix_backend.Accounts.{Accounts, User, Security, find_user_by_email}
use enix_backend.Twofa.{Tools, verify_two_factor}
use enix_backend.Auth.{
  Visit, LoginAnswer, verify_login2fa, login_successful, without_password, session_user_of,
  is_expired, drop_pending, set_user, in_session, save_session, checked, pending_user,
  two_factor_of,
}
use enix_backend.Auth.Login.{visit}

-- The session holds a pending login for the address, less than five minutes old, of a user who still
-- has two-factor authentication.
abbrev pub IsPending : ℕ → String → Accounts → Session → PendingLogin → User → Security → Type 0
IsPending now email a σ p u s =
    (σ.pending_login ≡ some p)
    × (is_expired now p ≡ false)
    × (p.email ≡ email)
    × (find_user_by_email email a ≡ some u)
    × (u.id ≡ p.user_id)
    × (u.security ≡ some s)
    × (s.is_two_factor_enabled ≡ true)

-- The answer to a pending login, by what the check of the code does.
abbrev pub answer : Session → User → Security → Ended Accounts ⊤ → Ended Visit LoginAnswer
answer σ u s (returned _ b) =
    returned (login_successful (without_password u))
      (visit b (set_user (session_user_of u s) (drop_pending σ)))
answer σ u s (threw e b) = threw (unauthorized "Invalid 2FA code") (visit b σ)

module _ (tools : Tools) (now : ℕ) (email code : String) (a : Accounts) (σ : Session) where
  signed_in :
      (u : User) (s : Security) (o : Ended Accounts ⊤)
      → after (checked (some σ) o) (λ _. do
        in_session drop_pending
        in_session (set_user (session_user_of u s))
        save_session true
        pure (login_successful (without_password u)))
        ≡ answer σ u s o
  signed_in u s (returned _ b) = refl
  signed_in u s (threw e b) = refl

  -- If the session store takes the session, the second step of a login with a pending login for the
  -- address, at most five minutes old, of a user who still has two-factor authentication answers by
  -- the check of the code: a right code makes the session that of the user and ends the pending
  -- login, whether the account was banned or timed out in the meantime or not; any failure of the
  -- check is one refusal and leaves the session as it is.
  pub verify_login2fa-answers :
      (p : PendingLogin) (u : User) (s : Security)
      → IsPending now email a σ p u s
      → verify_login2fa tools true now email code (visit a σ)
        ≡ answer σ u s (verify_two_factor tools now u.id code a)
  unfolding verify_login2fa
  verify_login2fa-answers p u s (pending, fresh, same, found, his, sec, on) =
      let matches : str_eq p.email email ≡ true = ground (arith, eq_iff p.email email, same) in
      let own : (u.id == p.user_id) ≡ true = ground (arith, his) in
      simp (
        pending,
        fresh,
        matches,
        found,
        own,
        sec,
        on,
        signed_in u s (verify_two_factor tools now u.id code a),
      )

  user-guarded :
      (p : PendingLogin) (o : Option User)
      → (pending_user p o ≡ none)
        ⊎ ((u : User) × (o ≡ some u) × (u.id ≡ p.user_id) × (pending_user p o ≡ some u))
  user-guarded p none = inl refl
  user-guarded p (some u) = elim (Bool-cases (u.id == p.user_id)) [
    | inl own ↦ inr (u, refl, ground arith, rw own refl)
    | inr other ↦ inl (rw other refl)
  ]

  security-guarded :
      (o : Option Security)
      → (two_factor_of o ≡ none)
        ⊎ ((s : Security) × (o ≡ some s)
            × (s.is_two_factor_enabled ≡ true)
            × (two_factor_of o ≡ some s))
  security-guarded none = inl refl
  security-guarded (some s) = elim (Bool-cases s.is_two_factor_enabled) [
    | inl on ↦ inr (s, refl, on, rw on refl)
    | inr off ↦ inl (rw off refl)
  ]

  -- A request with a session that gets an answer from the second step of a login had a pending login
  -- in its session, for the address it gave, at most five minutes old, of a user who is still there
  -- and still has two-factor authentication.
  pub verify_login2fa-guarded :
      (saves : Bool) {y : LoginAnswer}
      → result (verify_login2fa tools saves now email code (visit a σ)) ≡ ok y
      → (p : PendingLogin) × (u : User) × (s : Security) × IsPending now email a σ p u s
  unfolding verify_login2fa
  verify_login2fa-guarded saves h = elim (Option-cases σ.pending_login) [
    | inl nothing ↦ ground (arith, nothing)
    | inr (p, pending) ↦ elim (Bool-cases (is_expired now p)) [
      | inl expired ↦ ground (arith, pending, expired)
      | inr fresh ↦ elim (Bool-cases (str_eq p.email email)) [
        | inr differs ↦ ground (arith, pending, fresh, differs)
        | inl matches ↦ elim (user-guarded p (find_user_by_email email a)) [
          | inl unknown ↦ ground (arith, pending, fresh, matches, unknown)
          | inr (u, found, his, own) ↦ elim (security-guarded u.security) [
            | inl off ↦ ground (arith, pending, fresh, matches, own, off)
            | inr (s, sec, on, _) ↦ (
              p,
              u,
              s,
              (pending, fresh, ground (arith, eq_iff p.email email), found, his, sec, on),
            )
          ]
        ]
      ]
    ]
  ]
