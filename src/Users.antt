-- ===== src/Users.antt =====
-- `updateUser` of src/rest/api/users/users.service.ts, on the table of users. Of the body it takes the
-- two names; whether the account is public, the profile, the privacy settings and the cache of users are
-- left out.
pub mod Names
mod Tests
use Prim.Native.String.{String}
use text.Mathlib.Text.{◌==◌ as str_eq}
use enix_backend.Base.{ℕ, ⊤, Bool, true, false, not, Option, none, some, find?, ◌==◌}
use enix_backend.Base.Rows.{update_where, by_key}
use enix_backend.Http.{Error, failure, bad_request, internal, not_found}
use enix_backend.Effects.{
  Call, pure, gets, or_throw, throw_if, modify, catch_all, after, ◌>>=◌, ◌>>◌,
}
use enix_backend.Accounts.{Accounts, User, user_key, find_user}
use enix_backend.Auth.{without_password}
use enix_backend.Auth.Registration.{find_user_by_username, find_user_by_display_name}

pub record UpdateUserDto : Type 0 where
  pub username : Option String
  pub display_name : Option String

-- `existingUser && existingUser.id !== id`
abbrev pub is_other : ℕ → Option User → Bool
is_other id none = false
is_other id (some u) = not (u.id == id)

abbrev pub is_username_taken : ℕ → Option String → Accounts → Bool
is_username_taken id none a = false
is_username_taken id (some username) a = is_other id (find_user_by_username username a)

abbrev pub is_display_name_taken : ℕ → Option String → Accounts → Bool
is_display_name_taken id none a = false
is_display_name_taken id (some name) a = is_other id (find_user_by_display_name name a)

-- `if (value !== undefined) field = value`
abbrev pub or_old : Option String → String → String
or_old none old = old
or_old (some new) old = new

abbrev pub with_names : UpdateUserDto → User → User
with_names dto u = record u {
  username = or_old dto.username u.username;
  display_name = or_old dto.display_name u.display_name;
}

-- `instanceof HttpException`
abbrev pub is_http : Error → Bool
is_http failure = false
is_http _ = true

unfoldable pub update_user : ℕ → UpdateUserDto → Call Accounts User
update_user id dto = catch_all is_http (internal "Failed to update user") do
  found ← gets (find_user id)
  or_throw found (not_found "User not found")
  taken ← gets (is_username_taken id dto.username)
  throw_if taken (bad_request "Username is already taken")
  name_taken ← gets (is_display_name_taken id dto.display_name)
  throw_if name_taken (bad_request "Display name is already taken")
  again ← gets (find_user id)
  or_throw again (not_found "User not found")
  modify λ a. record a { users = update_where (by_key user_key id) (with_names dto) a.users }
  updated ← gets (find_user id)
  user ← or_throw updated (not_found "User not found")
  pure (without_password user)
