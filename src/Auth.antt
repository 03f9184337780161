-- ===== src/Auth.antt =====
-- Logging in and out: `login`, `verifyLogin2fa` and `logout` of src/security/auth/auth.service.ts. The
-- session of the request is part of the state; `saves` says whether the session store takes a session.
pub mod Login
pub mod SecondStep
pub mod BothSteps
pub mod Passwords
pub mod Registration
mod Tests
use Prim.Native.String.{String}
use text.Mathlib.Text.{◌==◌ as str_eq}
use enix_backend.Base.{
  ℕ, ◌+◌, ⊤, Bool, true, false, not, Option, none, some, ◌==◌, ◌&&◌, ltb, if◌then◌else◌,
}
use enix_backend.Http.{Error, bad_request, unauthorized, forbidden, not_found, internal}
use enix_backend.Session.{SessionUser, PendingLogin, Session}
use enix_backend.Effects.{
  Call, Ended, returned, threw, pure, throw, gets, or_throw, throw_if, modify, after, ◌>>=◌, ◌>>◌,
}
use enix_backend.Accounts.{Accounts, User, Security, find_user_by_email}
use enix_backend.Twofa.{Tools, verify_two_factor}

pub record Visit : Type 0 where
  pub accounts : Accounts
  pub session : Option Session

pub data LoginAnswer : Type 0 where
  two_factor_required : String → LoginAnswer
  login_successful : User → LoginAnswer

-- `const { password: _, security, ...userWithoutPassword } = user;`
abbrev pub without_password : User → User
without_password u = record u { password = ""; security = none }

abbrev pub session_user_of : User → Security → SessionUser
session_user_of u s = record {
  id = u.id;
  email = u.email;
  username = u.username;
  display_name = u.display_name;
  role = u.role;
  websocket_id = u.websocket_id;
  is_verified = s.is_verified;
}

abbrev pub pending_of : ℕ → User → PendingLogin
pending_of now u = record {
  user_id = u.id;
  email = u.email;
  password_verified = true;
  created_at = now;
}

-- `timeoutUntil && timeoutUntil > new Date()`
abbrev pub is_later : ℕ → Option ℕ → Bool
is_later now none = false
is_later now (some t) = ltb now t

abbrev pub is_shut_out : ℕ → Security → Bool
is_shut_out now s = s.is_timed_out && is_later now s.timed_out_until

abbrev pub in_session : (Session → Session) → Call Visit ⊤
in_session f v = returned tt (record v { session = each v.session })
  where
    each : Option Session → Option Session
    each none = none
    each (some σ) = some (f σ)

abbrev pub save_session : Bool → Call Visit ⊤
save_session saves = throw_if (not saves) (internal "Failed to save session")

-- `if (request.session)` around the save
abbrev pub save_if : Bool → Option Session → Call Visit ⊤
save_if saves none = pure tt
save_if saves (some σ) = save_session saves

abbrev pub need_session : Option Session → Call Visit Session
need_session o = or_throw o (internal "Session not available")

abbrev pub set_pending : PendingLogin → Session → Session
set_pending p σ = record σ { pending_login = some p }

abbrev pub drop_pending : Session → Session
drop_pending σ = record σ { pending_login = none }

abbrev pub set_user : SessionUser → Session → Session
set_user u σ = record σ { user = some u }

-- the user of that address, if the password is his
abbrev pub with_password : (String → String → Bool) → String → Option User → Option User
with_password compare password none = none
with_password compare password (some u) = if compare password u.password then some u else none

-- the security record of a user whose address is verified
abbrev pub verified : Option Security → Option Security
verified none = none
verified (some s) = if s.is_verified then some s else none

-- the password is right, and the account may be used
abbrev pub admit : ℕ → Security → Call Visit ⊤
admit now s = do
  throw_if s.is_banned (forbidden "Your account has been banned")
  throw_if (is_shut_out now s) (forbidden "Your account is temporarily timed out")

abbrev pub open_session : Bool → ℕ → User → Security → Call Visit LoginAnswer
open_session saves now u s =
    if s.is_two_factor_enabled
    then (in_session (set_pending (pending_of now u))
        >> gets (λ v. v.session)
        >>= save_if saves
        >> pure (two_factor_required u.email))
    else (in_session (set_user (session_user_of u s))
        >> gets (λ v. v.session)
        >>= need_session
        >> save_session saves
        >> pure (login_successful (without_password u)))

unfoldable pub login : Tools → Bool → ℕ → String → String → Call Visit LoginAnswer
login tools saves now email password = do
  found ← gets (λ v. with_password tools.compare password (find_user_by_email email v.accounts))
  user ← or_throw found (unauthorized "Invalid email or password")
  s ← or_throw (verified user.security) (forbidden "Please verify your email before logging in")
  admit now s
  open_session saves now user s

-- `request.session?.pendingLogin`
abbrev pub pending_in : Option Session → Option PendingLogin
pending_in none = none
pending_in (some σ) = σ.pending_login

-- five minutes
abbrev pub is_expired : ℕ → PendingLogin → Bool
is_expired now p = ltb (p.created_at + 300000) now

-- a throw that also ends the pending login
abbrev pub give_up_if : Bool → Error → Call Visit ⊤
give_up_if true e = in_session drop_pending >> throw e
give_up_if false e = pure tt

abbrev pub pending_user : PendingLogin → Option User → Option User
pending_user p none = none
pending_user p (some u) = if u.id == p.user_id then some u else none

-- the security record of a user who still has two-factor authentication
abbrev pub two_factor_of : Option Security → Option Security
two_factor_of none = none
two_factor_of (some s) = if s.is_two_factor_enabled then some s else none

abbrev pub or_give_up : Option Security → Error → Call Visit Security
or_give_up none e = in_session drop_pending >> throw e
or_give_up (some s) e = pure s

-- `twofaService.verifyTwoFactor`; whatever it throws becomes one answer.
abbrev pub checked : Option Session → Ended Accounts ⊤ → Ended Visit ⊤
checked σ (returned _ a) = returned tt (record { accounts = a; session = σ })
checked σ (threw e a) =
    threw (unauthorized "Invalid 2FA code") (record { accounts = a; session = σ })

abbrev pub check_code : Tools → ℕ → ℕ → String → Call Visit ⊤
check_code tools now user_id code v =
    checked v.session (verify_two_factor tools now user_id code v.accounts)

unfoldable pub verify_login2fa : Tools → Bool → ℕ → String → String → Call Visit LoginAnswer
verify_login2fa tools saves now email code = do
  pending ← gets (λ v. pending_in v.session)
  p ← or_throw pending (bad_request "No pending login found. Please login again.")
  give_up_if (is_expired now p) (bad_request "Login session expired. Please login again.")
  throw_if (not (str_eq p.email email)) (bad_request "Email mismatch")
  found ← gets (λ v. pending_user p (find_user_by_email email v.accounts))
  user ← or_throw found (not_found "User not found")
  s ←
      or_give_up (two_factor_of user.security)
        (bad_request "2FA is no longer enabled. Please login again.")
  check_code tools now user.id code
  in_session drop_pending
  in_session (set_user (session_user_of user s))
  save_session saves
  pure (login_successful (without_password user))

-- `destroy`, which the session store may fail to do
abbrev pub destroy_session : Bool → Option Session → Call Visit ⊤
destroy_session destroys none v = returned tt v
destroy_session true (some σ) v = returned tt (record v { session = none })
destroy_session false (some σ) v = threw (internal "Failed to logout") v

unfoldable pub logout : Bool → Call Visit ⊤
logout destroys = gets (λ v. v.session) >>= destroy_session destroys
