-- ===== src/Auth/Passwords.antt =====
-- `forgotPassword` and `resetPassword` of src/security/auth/auth.service.ts, with the calls of
-- src/rest/api/users/users.service.ts that they make. `hash` is that of bcrypt, `token` the text that is
-- drawn; mails are sent on the side, and their errors dropped.
pub mod Reset
use Prim.Native.String.{String}
use text.Mathlib.Text.{◌==◌ as str_eq}
use enix_backend.Base.{
  ℕ, ◌+◌, ⊤, Bool, true, false, Option, none, some, List, ◌==◌, find?, ltb, if◌then◌else◌,
}
use enix_backend.Base.Rows.{update_where, by_key}
use enix_backend.Http.{Error, bad_request, not_found}
use enix_backend.Effects.{Call, pure, gets, or_throw, throw_if, modify, after, ◌>>=◌, ◌>>◌}
use enix_backend.Accounts.{Accounts, User, Security, user_key, find_user, find_user_by_email}

abbrev pub is_text : String → Option String → Bool
is_text token none = false
is_text token (some t) = str_eq t token

abbrev pub has_token : String → Option Security → Bool
has_token token none = false
has_token token (some s) = is_text token s.password_reset_token

abbrev pub holds_token : String → User → Bool
holds_token token u = has_token token u.security

-- `findSecurityByPasswordResetToken`, as the user whose record it is
abbrev pub find_by_reset_token : String → Accounts → Option User
find_by_reset_token token a = find? (holds_token token) a.users

-- a change of the security record, of a user who has one
abbrev pub on_security : (Security → Security) → User → User
on_security f u = record u { security = each u.security }
  where
    each : Option Security → Option Security
    each none = none
    each (some s) = some (f s)

abbrev pub with_reset_token : String → ℕ → Security → Security
with_reset_token token expires s = record s {
  password_reset_token = some token;
  password_reset_token_expires = some expires;
}

abbrev pub without_reset_token : Security → Security
without_reset_token s = record s {
  password_reset_token = none;
  password_reset_token_expires = none;
}

abbrev pub change_user : ℕ → (User → User) → Call Accounts ⊤
change_user user_id f =
    modify λ a. record a { users = update_where (by_key user_key user_id) f a.users }

-- PASSWORD_RESET_TOKEN_EXPIRY_HOURS, in milliseconds
abbrev pub reset_lifetime : ℕ
reset_lifetime = 3600000

-- The answer is the same whether there is such a user or not.
abbrev pub send_reset_token : ℕ → String → Option User → Call Accounts ⊤
send_reset_token now token none = pure tt
send_reset_token now token (some u) =
    change_user u.id (on_security (with_reset_token token (now + reset_lifetime)))

unfoldable pub forgot_password : ℕ → String → String → Call Accounts ⊤
forgot_password now email token = gets (find_user_by_email email) >>= send_reset_token now token

-- `updateUserPassword`; the message of the source names the identifier too.
abbrev pub update_user_password : ℕ → String → Call Accounts ⊤
update_user_password user_id password = do
  found ← gets (find_user user_id)
  or_throw found (not_found "User not found")
  change_user user_id (λ u. record u { password = password })

-- `!expires || expires < new Date()`
abbrev pub is_over : ℕ → Option ℕ → Bool
is_over now none = true
is_over now (some t) = ltb t now

abbrev pub reset_expires : Option Security → Option ℕ
reset_expires none = none
reset_expires (some s) = s.password_reset_token_expires

unfoldable pub reset_password : (String → String) → ℕ → String → String → Call Accounts ⊤
reset_password hash now token new_password = do
  found ← gets (find_by_reset_token token)
  user ← or_throw found (bad_request "Invalid or expired password reset token")
  throw_if (is_over now (reset_expires user.security))
      (bad_request "Password reset token has expired")
  update_user_password user.id (hash new_password)
  change_user user.id (on_security without_reset_token)
