-- ===== src/Auth/Tests.antt =====
-- The theorems on logins at concrete accounts.
mod Registered
use text.Mathlib.Text.{◌==◌ as str_eq}
use enix_backend.Base.{arith, ◌≡◌, refl, Bool, true, false, none, some, [], ◌∷◌, if◌then◌else◌}
use enix_backend.Base.Rows.{update_where}
use enix_backend.Http.{err, bad_request, ok}
use Prim.Native.String.{String}
use enix_backend.Roles.{member}
use enix_backend.Session.{PendingLogin, Session}
use enix_backend.Effects.{final, result, returned}
use enix_backend.Accounts.{find_user, Accounts, User, Security}
use enix_backend.Twofa.{Tools, verify_two_factor}
use enix_backend.Auth.{
  login, verify_login2fa, login_successful, two_factor_required, without_password, pending_of,
  set_pending, set_user, session_user_of,
}
use enix_backend.Auth.Passwords.{
  forgot_password, reset_password, on_security, with_reset_token, without_reset_token,
}
use enix_backend.Auth.Passwords.Reset.{reset_password-once, forgot_password-reset_password}
use enix_backend.Auth.BothSteps.{login-verify_login2fa}
use enix_backend.Http.{ok, err, bad_request}
use enix_backend.Auth.Login.{IsAdmitted, visit, login-IsAdmitted, login-answers}
use enix_backend.Auth.SecondStep.{
  IsPending, answer, verify_login2fa-answers, verify_login2fa-guarded,
}

abbrev open_tools : Tools
open_tools = record {
  compare = str_eq;
  hash = λ s. s;
  totp = λ secret code now. str_eq secret code;
  encrypt = λ s. s;
  decrypt = some;
  upper = λ s. s;
}

-- an account that is banned only once its owner has given the password
abbrev guarded : Bool → Security
guarded banned = record {
  verification_token = none;
  is_verified = true;
  date_verified = none;
  is_banned = banned;
  is_timed_out = false;
  timed_out_until = none;
  password_reset_token = none;
  password_reset_token_expires = none;
  is_two_factor_enabled = true;
  two_factor_secret = some "123456";
  two_factor_token = none;
  two_factor_backup_codes = none;
  two_factor_enabled_at = some 1;
  two_factor_last_verified = none;
  two_factor_backup_codes_generated_at = some 1;
}

abbrev owner : Bool → User
owner banned = record {
  id = 1;
  email = "a@example.org";
  username = "a";
  display_name = "A";
  role = member;
  password = "secret";
  websocket_id = 2;
  security = some (guarded banned);
}

abbrev accounts_of : Bool → Accounts
accounts_of banned = record { users = owner banned ∷ []; attempts = λ k. none }

abbrev no_login : Session
no_login = record { user = none; pending_login = none }

abbrev half_logged_in : Session
half_logged_in = set_pending (pending_of 10 (owner false)) no_login

login-IsAdmitted_example :
    (u : User) × (s : Security) × IsAdmitted open_tools 10 "a@example.org" "secret"
      (accounts_of false)
      u
      s
unfolding login
login-IsAdmitted_example =
    login-IsAdmitted open_tools 10 "a@example.org" "secret" (accounts_of false) no_login true
      {y = two_factor_required "a@example.org"} refl

abbrev logged_in : Accounts
logged_in = final (verify_two_factor open_tools 20 1 "123456" (accounts_of false))

login-verify_login2fa_example :
    let first =
      login open_tools true 10 "a@example.org" "secret" (visit (accounts_of false) no_login) in
    let second = verify_login2fa open_tools true 20 "a@example.org" "123456" (final first) in
    (result first ≡ ok (two_factor_required "a@example.org"))
    × ((final first).session ≡ some half_logged_in)
    × (second
        ≡ returned
            (login_successful (without_password (owner false)))
            (visit logged_in (set_user (session_user_of (owner false) (guarded false)) no_login)))
    × (result (verify_login2fa open_tools true 30 "a@example.org" "123456" (final second))
        ≡ err (bad_request "No pending login found. Please login again."))
    × (result (verify_login2fa open_tools true 300011 "a@example.org" "123456" (final first))
        ≡ err (bad_request "Login session expired. Please login again."))
unfolding verify_two_factor
login-verify_login2fa_example =
    login-verify_login2fa open_tools 10 "a@example.org" "secret" (accounts_of false) no_login
      (owner false) (guarded false) (refl, refl, refl, refl, refl, refl) refl 20 300011 30 "123456"
      "123456" logged_in (omega arith) (omega arith) refl

verify_login2fa-guarded_example :
    (p : PendingLogin) × (u : User) × (s : Security) × IsPending 20 "a@example.org"
      (accounts_of true)
      half_logged_in
      p
      u
      s
unfolding verify_login2fa verify_two_factor
verify_login2fa-guarded_example =
    verify_login2fa-guarded open_tools 20 "a@example.org" "123456" (accounts_of true) half_logged_in
      true {y = login_successful (without_password (owner true))} refl

abbrev plain_hash : String → String
plain_hash s = s

abbrev asked : Accounts
asked = final (forgot_password 0 "a@example.org" "token" (accounts_of false))

reset_password-once_example :
    result (
      reset_password plain_hash 30 "token" "other"
        (final (reset_password plain_hash 20 "token" "new" asked)))
    ≡ err (bad_request "Invalid or expired password reset token")
unfolding forgot_password reset_password update_where
reset_password-once_example =
    reset_password-once plain_hash 20 30 "token" "new" "other" asked
      {u = on_security (with_reset_token "token" 3600000) (owner false)} refl ((λ h. refl), tt) refl

forgot_password-reset_password_example :
    (result (reset_password plain_hash 20 "token" "new" asked) ≡ ok tt)
    × (find_user 1 (final (reset_password plain_hash 20 "token" "new" asked))
        ≡ some (record (owner false) {
          password = "new";
          security = some (without_reset_token (guarded false));
        }))
forgot_password-reset_password_example =
    forgot_password-reset_password plain_hash 0 20 "a@example.org" "token" "new" (accounts_of false)
      {u = owner false} {s = guarded false} refl refl refl (refl, tt) (omega arith)
