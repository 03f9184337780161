-- ===== src/Auth/Login.antt =====
-- The first step of a login: `login`.
use Prim.Native.String.{String}
use enix_backend.Base.{
  ℕ, ◌≡◌, refl, inl, inr, Bool, true, false, Bool-cases, Option, none, some, Option-cases, arith,
  if◌then◌else◌,
}
use enix_backend.Http.{ok, forbidden}
use enix_backend.Session.{Session}
use enix_backend.Effects.{result, returned, or_throw, ◌>>=◌, ◌>>◌}
use enix_backend.Accounts.{Accounts, User, Security, find_user_by_email}
use enix_backend.Twofa.{Tools}
use enix_backend.Auth.{
  admit, open_session, verified, Visit, LoginAnswer, login, login_successful, two_factor_required,
  without_password, session_user_of, pending_of, is_shut_out, set_pending, set_user,
}

-- The address is that of this user, the password is his, and the account may be used.
abbrev pub IsAdmitted : Tools → ℕ → String → String → Accounts → User → Security → Type 0
IsAdmitted tools now email password a u s =
    (find_user_by_email email a ≡ some u)
    × (tools.compare password u.password ≡ true)
    × (u.security ≡ some s)
    × (s.is_verified ≡ true)
    × (s.is_banned ≡ false)
    × (is_shut_out now s ≡ false)

-- A request with a session.
abbrev pub visit : Accounts → Session → Visit
visit a σ = record { accounts = a; session = some σ }

module _ (tools : Tools) (now : ℕ) (email password : String) (a : Accounts) (σ : Session) where
  admit-passes :
      (saves : Bool) (u : User) (s : Security) {y : LoginAnswer}
      → result ((admit now s >> open_session saves now u s) (visit a σ)) ≡ ok y
      → (s.is_banned ≡ false) × (is_shut_out now s ≡ false)
  admit-passes saves u s h = ground arith

  verified-passes :
      (saves : Bool) (u : User) (o : Option Security) {y : LoginAnswer}
      → result (
          (or_throw (verified o) (forbidden "Please verify your email before logging in") >>= λ s.
          admit now s >> open_session saves now u s)
            (visit a σ))
        ≡ ok y
      → (s : Security) × (o ≡ some s)
        × (s.is_verified ≡ true)
        × (s.is_banned ≡ false)
        × (is_shut_out now s ≡ false)
  verified-passes saves u none {y} h = cc
  verified-passes saves u (some s) {y} h = elim (Bool-cases s.is_verified) [
    | inl affirmed ↦
        let (free, in_time) = admit-passes saves u s {y = y} (ground (arith, affirmed, h)) in
        (s, refl, affirmed, free, in_time)
    | inr denied ↦ ground (arith, denied)
  ]

  -- A request with a session that gets an answer from the first step of a login gave the address and
  -- the password of a user who has verified the address and is, at that time, neither banned nor
  -- timed out.
  pub login-IsAdmitted :
      (saves : Bool) {y : LoginAnswer}
      → result (login tools saves now email password (visit a σ)) ≡ ok y
      → (u : User) × (s : Security) × IsAdmitted tools now email password a u s
  unfolding login
  login-IsAdmitted saves {y} h = elim (Option-cases (find_user_by_email email a)) [
    | inl unknown ↦ ground (arith, unknown)
    | inr (u, found) ↦ elim (Bool-cases (tools.compare password u.password)) [
      | inl right ↦
          let (s, sec, affirmed, free, in_time) =
            verified-passes saves u u.security {y = y} (ground (arith, found, right, h)) in
          (u, s, (found, right, sec, affirmed, free, in_time))
      | inr wrong ↦ ground (arith, found, wrong)
    ]
  ]

  -- If the session store takes the session, a user who gave the right password, has verified the
  -- address and is neither banned nor timed out is asked for a code, with a pending login in the
  -- session, if he has two-factor authentication; otherwise the session becomes his.
  pub login-answers :
      (u : User) (s : Security)
      → IsAdmitted tools now email password a u s
      → login tools true now email password (visit a σ) ≡ (
          if s.is_two_factor_enabled
          then returned (two_factor_required u.email) (visit a (set_pending (pending_of now u) σ))
          else returned
              (login_successful (without_password u))
              (visit a (set_user (session_user_of u s) σ)))
  unfolding login
  login-answers u s (found, right, sec, affirmed, free, in_time) =
      ground (arith, found, right, sec, affirmed, free, in_time)
