-- ===== src/Accounts.antt =====
-- Users with their security records, and the counters of failed codes that Redis keeps: the entities
-- src/rest/api/users/assets/entities/user.entity.ts and security/security.entity.ts, as far as the
-- handlers of logins and of two-factor authentication read and write them. Identifiers are only
-- compared, so they are numbers; a time is in milliseconds.
use Prim.Native.String.{String}
use text.Mathlib.Text.{◌==◌ as str_eq}
use enix_backend.Base.{ℕ, ⊤, Bool, Option, none, some, List, ◌==◌, ltb, if◌then◌else◌, find?}
use enix_backend.Base.Rows.{update_where, by_key}
use enix_backend.Roles.{Role}
use enix_backend.Effects.{Call, modify}

pub record Security : Type 0 where
  pub verification_token : Option String
  pub is_verified : Bool
  pub date_verified : Option ℕ
  pub is_banned : Bool
  pub is_timed_out : Bool
  pub timed_out_until : Option ℕ
  pub password_reset_token : Option String
  pub password_reset_token_expires : Option ℕ
  pub is_two_factor_enabled : Bool
  pub two_factor_secret : Option String
  pub two_factor_token : Option String
  pub two_factor_backup_codes : Option (List String)
  pub two_factor_enabled_at : Option ℕ
  pub two_factor_last_verified : Option ℕ
  pub two_factor_backup_codes_generated_at : Option ℕ

pub record User : Type 0 where
  pub id : ℕ
  pub email : String
  pub username : String
  pub display_name : String
  pub role : Role
  pub password : String
  pub websocket_id : ℕ
  pub security : Option Security

-- A counter of Redis: its value, and when it expires.
pub record Attempts : Type 0 where
  pub number : ℕ
  pub expires : ℕ

pub record Accounts : Type 0 where
  pub users : List User
  pub attempts : ℕ → Option Attempts

abbrev pub user_key : User → ℕ
user_key u = u.id

-- `findOne({ where: { id }, relations: ['security'] })`
abbrev pub find_user : ℕ → Accounts → Option User
find_user user_id a = find? (by_key user_key user_id) a.users

-- `findUserWithSecurityByEmail`
abbrev pub find_user_by_email : String → Accounts → Option User
find_user_by_email email a = find? (λ u. str_eq u.email email) a.users

abbrev pub with_security : Security → User → User
with_security s u = record u { security = some s }

-- `securityRepository.save(user.security)`
unfoldable pub save_security : ℕ → Security → Call Accounts ⊤
save_security user_id s =
    modify
      λ a. record a { users = update_where (by_key user_key user_id) (with_security s) a.users }

-- what is left of a counter at a time
abbrev pub alive : ℕ → Option Attempts → ℕ
alive now none = 0
alive now (some c) = if ltb now c.expires then c.number else 0

-- `get<number>(key)`, or 0
abbrev pub attempts_of : ℕ → ℕ → Accounts → ℕ
attempts_of now user_id a = alive now (a.attempts user_id)

abbrev pub set_attempts : ℕ → Option Attempts → Accounts → Accounts
set_attempts user_id c a = record a { attempts = λ j. if j == user_id then c else a.attempts j }
