-- ===== src/Auth/Registration.antt =====
-- `register`, `verifyEmail` and `resendVerifyEmail` of src/security/auth/auth.service.ts, with the
-- calls of src/rest/api/users/users.service.ts that they make. The identifiers and the token that
-- are drawn are arguments, and so is `hash`, that of bcrypt; the profile and the privacy settings
-- of a new user, and the cache of users, are left out.
pub mod Verified
use Prim.Native.String.{String}
use text.Mathlib.Text.{◌==◌ as str_eq}
use enix_backend.Base.{
  ℕ, ⊤, Bool, true, false, not, ◌||◌, Option, none, some, List, [], ◌∷◌, ◌++◌, find?, is_some,
}
use enix_backend.Roles.{member}
use enix_backend.Http.{Error, failure, bad_request, internal, not_found, status}
use enix_backend.Effects.{Call, pure, gets, or_throw, throw_if, modify, ◌>>=◌, ◌>>◌}
use enix_backend.Accounts.{Accounts, User, Security, find_user, find_user_by_email}
use enix_backend.Auth.{without_password}
use enix_backend.Auth.Passwords.{is_text, change_user, on_security}

-- what the request gives, and what is drawn for it
pub record Registration : Type 0 where
  pub username : String
  pub email : String
  pub password : String
  pub id : ℕ
  pub websocket_id : ℕ
  pub token : String

-- `existsByUsername`
abbrev pub find_user_by_username : String → Accounts → Option User
find_user_by_username username a = find? (λ u. str_eq u.username username) a.users

-- who shows that name
abbrev pub find_user_by_display_name : String → Accounts → Option User
find_user_by_display_name name a = find? (λ u. str_eq u.display_name name) a.users

abbrev pub new_security : Security
new_security = record {
  verification_token = none;
  is_verified = false;
  date_verified = none;
  is_banned = false;
  is_timed_out = false;
  timed_out_until = none;
  password_reset_token = none;
  password_reset_token_expires = none;
  is_two_factor_enabled = false;
  two_factor_secret = none;
  two_factor_token = none;
  two_factor_backup_codes = none;
  two_factor_enabled_at = none;
  two_factor_last_verified = none;
  two_factor_backup_codes_generated_at = none;
}

abbrev pub new_user : (String → String) → Registration → User
new_user hash r = record {
  id = r.id;
  email = r.email;
  username = r.username;
  display_name = r.username;
  role = member;
  password = hash r.password;
  websocket_id = r.websocket_id;
  security = some new_security;
}

-- `if (existingEmail || existingUsername) throw ...`
abbrev pub refuse_taken : String → Registration → Call Accounts ⊤
refuse_taken message r = do
  by_email ← gets (find_user_by_email r.email)
  by_username ← gets (find_user_by_username r.username)
  throw_if (is_some by_email || is_some by_username) (bad_request message)

-- `UsersService.create`. The database refuses a display name that somebody else shows, since the column
-- is unique; the new user shows his name.
unfoldable pub create : (String → String) → Registration → Call Accounts User
create hash r = do
  refuse_taken "User creation failed. Please check your information and try again." r
  shown ← gets (find_user_by_display_name r.username)
  throw_if (is_some shown) failure
  modify λ a. record a { users = a.users ++ new_user hash r ∷ [] }
  pure (new_user hash r)

abbrev pub with_verification : String → Security → Security
with_verification token s = record s { verification_token = some token; is_verified = false }

-- `updateSecurityVerification`
abbrev pub update_security_verification : ℕ → String → Call Accounts ⊤
update_security_verification user_id token =
    change_user user_id (on_security (with_verification token))

-- The mail with the token is sent on the side, and its errors are dropped.
unfoldable pub register : (String → String) → Registration → Call Accounts User
unfolding create
register hash r = do
  refuse_taken "Registration failed. Please check your information and try again." r
  user ← create hash r
  update_security_verification user.id r.token
  pure (without_password user)

abbrev pub has_verification : String → Option Security → Bool
has_verification token none = false
has_verification token (some s) = is_text token s.verification_token

abbrev pub holds_verification : String → User → Bool
holds_verification token u = has_verification token u.security

-- `findSecurityByVerificationToken`, as the user whose record it is
abbrev pub find_by_verification : String → Accounts → Option User
find_by_verification token a = find? (holds_verification token) a.users

abbrev is_verified_in : Option Security → Bool
is_verified_in none = false
is_verified_in (some s) = s.is_verified

abbrev pub verified_at : ℕ → Security → Security
verified_at now s = record s {
  verification_token = none;
  is_verified = true;
  date_verified = some now;
}

unfoldable pub verify_email : ℕ → String → Call Accounts User
verify_email now token = do
  found ← gets (find_by_verification token)
  holder ← or_throw found (bad_request "Invalid or expired verification token")
  throw_if (is_verified_in holder.security) (bad_request "Email has already been verified")
  change_user holder.id (on_security (verified_at now))
  again ← gets (find_user holder.id)
  user ← or_throw again (not_found "User not found")
  pure (without_password user)

-- `findSecurityByUserEmail`
abbrev security_in : Option User → Option Security
security_in none = none
security_in (some u) = u.security

-- `mailed` tells whether the mail could be sent.
unfoldable pub resend_verify_email : Bool → String → String → Call Accounts ⊤
resend_verify_email mailed token email = do
  found ← gets (find_user_by_email email)
  user ← or_throw found (
      status 200
        "If an account with that email exists and is not verified, a verification email will be sent.")
  security ← or_throw (security_in (some user)) (internal "Security record not found for this user")
  throw_if security.is_verified (bad_request "Email has already been verified")
  update_security_verification user.id token
  throw_if (not mailed) (internal "Failed to send verification email. Please try again later.")
