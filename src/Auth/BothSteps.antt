-- ===== src/Auth/BothSteps.antt =====
-- A login with two-factor authentication, from the password to the code.
use Prim.Native.String.{String}
use text.Mathlib.Text.{◌==◌ as str_eq}
use text.Mathlib.TextEquality.{eq_iff}
use enix_backend.Base.{ℕ, ◌+◌, ◌≤◌, ◌<◌, ◌≡◌, refl, true, some, none, arith, find?-passes}
use enix_backend.Http.{ok, err, bad_request}
use enix_backend.Session.{Session}
use enix_backend.Effects.{returned, result, final}
use enix_backend.Accounts.{Accounts, User, Security}
use enix_backend.Twofa.{Tools, verify_two_factor}
use enix_backend.Auth.{
  login, verify_login2fa, login_successful, two_factor_required, without_password, session_user_of,
  pending_of, set_pending,
}
use enix_backend.Auth.Login.{IsAdmitted, visit, login-answers}
use enix_backend.Auth.SecondStep.{IsPending, verify_login2fa-answers}

module _ (tools : Tools) (now : ℕ) (email password : String) (a : Accounts) (σ : Session) (u : User)
    (s : Security) (admitted : IsAdmitted tools now email password a u s)
    (on : s.is_two_factor_enabled ≡ true) where
  abbrev waiting : Session
  waiting = set_pending (pending_of now u) σ

  abbrev pub signed_in : Session
  signed_in = record σ { user = some (session_user_of u s); pending_login = none }

  first-step :
      login tools true now email password (visit a σ)
      ≡ returned (two_factor_required u.email) (visit a waiting)
  first-step = rw (login-answers tools now email password a σ u s admitted) (rw on refl)

  -- the address of the pending login is the one that was given
  own_address : u.email ≡ email
  own_address =
      (eq_iff u.email email).0 (find?-passes (λ v. str_eq v.email email) a.users admitted.0)

  waiting-IsPending :
      (t : ℕ) → t ≤ now + 300000 → IsPending t email a waiting (pending_of now u) u s
  waiting-IsPending t soon =
      let (found, matching, sec, affirmed, free, in_time) = admitted in
      (refl, ground arith, own_address, found, refl, sec, on)

  -- If the session store takes the session and nothing changes the accounts between the two steps, a
  -- user with two-factor authentication who may log in, and who gives a right code at most five
  -- minutes after the right password, is asked for the code, with nothing but a pending login
  -- written to the session, and then is logged in: the session is his and the pending login is gone,
  -- so that the second step cannot be repeated. A right code more than five minutes after the
  -- password is refused.
  pub login-verify_login2fa :
      (t late at : ℕ) (code other : String) (b : Accounts)
      → t ≤ now + 300000
      → now + 300000 < late
      → verify_two_factor tools t u.id code a ≡ returned tt b
      → let first = login tools true now email password (visit a σ) in
        let second = verify_login2fa tools true t email code (final first) in
        (result first ≡ ok (two_factor_required u.email))
        × ((final first).session ≡ some (record σ { pending_login = some (pending_of now u) }))
        × (second ≡ returned (login_successful (without_password u)) (visit b signed_in))
        × (result (verify_login2fa tools true at email other (final second))
            ≡ err (bad_request "No pending login found. Please login again."))
        × (result (verify_login2fa tools true late email code (final first))
            ≡ err (bad_request "Login session expired. Please login again."))
  unfolding verify_login2fa
  login-verify_login2fa t late at code other b soon slow right =
      let second : verify_login2fa tools true t email code (visit a waiting)
          ≡ returned (login_successful (without_password u)) (visit b signed_in) =
        rw
          (verify_login2fa-answers tools t email code a waiting (pending_of now u) u s
            (waiting-IsPending t soon))
          (rw right refl) in
      rw first-step (refl, refl, second, rw second refl, ground arith)
