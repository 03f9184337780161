-- ===== src/Twofa.antt =====
-- The two-factor service: src/rest/api/users/security/twofa/twofa.service.ts. What bcrypt, speakeasy,
-- crypto and the engine compute is the argument `tools`; the clock and the drawn secrets and codes are
-- arguments too. No call of the database or of Redis throws here.
pub mod Limit
pub mod Backup
mod Tests
use Prim.Native.Char.{Char, code}
use Prim.Native.String.{String}
use enix_backend.Base.{
  ℕ, suc, ◌+◌, ⊤, Bool, true, false, not, Option, none, some, List, [], ◌∷◌, ◌==◌, ◌&&◌, ◌||◌, leb,
  ltb, if◌then◌else◌, any, map, is_some,
}
use enix_backend.Http.{
  Error, bad_request, not_found, unauthorized, internal, failure, is_not_found, is_bad_request,
  is_unauthorized,
}
use enix_backend.Effects.{
  Call, pure, throw, gets, or_throw, throw_if, modify, catch_all, after, ◌>>=◌, ◌>>◌,
}
use enix_backend.Accounts.{
  Accounts, User, Security, Attempts, find_user, save_security, attempts_of, set_attempts,
}

pub record Tools : Type 0 where
  -- `bcrypt.compare(text, hash)` and `bcrypt.hash(text, 10)`
  pub compare : String → String → Bool
  pub hash : String → String
  -- `speakeasy.totp.verify({ secret, token, window: 1 })`, at a time
  pub totp : String → String → ℕ → Bool
  -- AES-256-GCM under the server's key: `encryptSecret`, and `decryptSecret`, which may throw
  pub encrypt : String → String
  pub decrypt : String → Option String
  -- `toUpperCase`
  pub upper : String → String

-- `string.length` counts UTF-16 units.
abbrev pub units : Char → ℕ
units c = if leb 65536 (code c) then 2 else 1

abbrev pub length : String → ℕ
length String.[] = 0
length (String.◌∷◌ c s) = units c + length s

abbrev pub is_digit : Char → Bool
is_digit c = leb 48 (code c) && leb (code c) 57

abbrev pub all_digits : String → Bool
all_digits String.[] = true
all_digits (String.◌∷◌ c s) = is_digit c && all_digits s

-- `!text`: an empty text counts as a missing one.
abbrev pub non_empty : Option String → Option String
non_empty none = none
non_empty (some String.[]) = none
non_empty (some (String.◌∷◌ c s)) = some (String.◌∷◌ c s)

-- `verifyBackupCode`
abbrev pub verify_backup_code : (String → String → Bool) → String → List String → Bool
verify_backup_code compare code hashed_codes = any (λ h. compare code h) hashed_codes

-- `removeBackupCode`: the first hash that the code matches is left out.
abbrev pub remove_backup_code : (String → String → Bool) → String → List String → List String
remove_backup_code compare code [] = []
remove_backup_code compare code (h ∷ hs) =
    if compare code h then hs else h ∷ remove_backup_code compare code hs

-- `checkRateLimit`
abbrev pub check_rate_limit : ℕ → ℕ → Call Accounts ⊤
check_rate_limit now user_id a =
    throw_if (leb 5 (attempts_of now user_id a))
      (bad_request "Too many failed attempts. Please try again in 15 minutes.") a

-- `incrementRateLimit`: the time to live, 900 seconds, starts again.
abbrev pub increment_rate_limit : ℕ → ℕ → Call Accounts ⊤
increment_rate_limit now user_id = modify λ a.
    set_attempts user_id
      (some (record { number = suc (attempts_of now user_id a); expires = now + 900000 })) a

-- `resetRateLimit`
abbrev pub reset_rate_limit : ℕ → Call Accounts ⊤
reset_rate_limit user_id = modify (set_attempts user_id none)

-- a wrong code
abbrev pub reject : ℕ → ℕ → String → Call Accounts ⊤
reject now user_id message = increment_rate_limit now user_id >> throw (bad_request message)

-- a right code, and the security record that is saved
abbrev pub accept : ℕ → ℕ → Security → Call Accounts ⊤
accept now user_id s =
    save_security user_id (record s { two_factor_last_verified = some now })
    >> reset_rate_limit user_id

-- `user?.security`, or `NotFoundException`
abbrev pub security_of : Option User → Option Security
security_of none = none
security_of (some u) = u.security

abbrev pub need_security : ℕ → Call Accounts Security
need_security user_id a =
    or_throw (security_of (find_user user_id a)) (not_found "User or security record not found") a

module _ (tools : Tools) where
  -- an eight character code
  abbrev pub try_backup_code : ℕ → ℕ → String → Security → Option (List String) → Call Accounts ⊤
  try_backup_code now user_id code s none = reject now user_id "Invalid backup code"
  try_backup_code now user_id code s (some []) = reject now user_id "Invalid backup code"
  try_backup_code now user_id code s (some (h ∷ hs)) =
      if verify_backup_code tools.compare code (h ∷ hs)
      then accept now user_id (record s {
        two_factor_backup_codes = some (remove_backup_code tools.compare code (h ∷ hs));
      })
      else reject now user_id "Invalid backup code"

  abbrev pub try_decrypted : ℕ → ℕ → String → Security → Option String → Call Accounts ⊤
  try_decrypted now user_id code s none = throw failure
  try_decrypted now user_id code s (some secret) =
      if tools.totp secret code now
      then accept now user_id s
      else reject now user_id "Invalid verification code"

  abbrev pub try_secret : ℕ → ℕ → String → Security → Option String → Call Accounts ⊤
  try_secret now user_id code s none = reject now user_id "2FA secret not found"
  try_secret now user_id code s (some sealed) =
      try_decrypted now user_id code s (tools.decrypt sealed)

  abbrev pub is_totp : String → Bool
  is_totp code = length code == 6 && all_digits code

  abbrev pub try_code : ℕ → ℕ → String → Security → Call Accounts ⊤
  try_code now user_id code s =
      if length code == 8
      then try_backup_code now user_id code s s.two_factor_backup_codes
      else if is_totp code
      then try_secret now user_id code s (non_empty s.two_factor_secret)
      else reject now user_id "Invalid code format"

  abbrev pub not_found_or_bad : Error → Bool
  not_found_or_bad e = is_not_found e || is_bad_request e

  unfoldable pub verify_two_factor : ℕ → ℕ → String → Call Accounts ⊤
  unfolding save_security
  verify_two_factor now user_id given =
      catch_all not_found_or_bad (internal "Failed to verify 2FA") do
        check_rate_limit now user_id
        s ← need_security user_id
        throw_if (not s.is_two_factor_enabled)
            (bad_request "Two-factor authentication is not enabled")
        try_code now user_id (tools.upper given) s

  abbrev pub need_user : ℕ → Call Accounts User
  need_user user_id a = or_throw (find_user user_id a) (not_found "User not found") a

  abbrev pub not_found_bad_or_unauthorized : Error → Bool
  not_found_bad_or_unauthorized e = is_not_found e || is_bad_request e || is_unauthorized e

  -- `secret` is drawn by speakeasy.
  unfoldable pub setup_two_factor : ℕ → String → String → Call Accounts String
  unfolding save_security
  setup_two_factor user_id password secret =
      catch_all not_found_bad_or_unauthorized (internal "Failed to setup 2FA") do
        user ← need_user user_id
        s ← or_throw user.security (not_found "Security record not found")
        throw_if (not (tools.compare password user.password)) (unauthorized "Invalid password")
        throw_if s.is_two_factor_enabled
            (bad_request "Two-factor authentication is already enabled")
        save_security user_id (record s { two_factor_token = some secret })
        pure secret

  abbrev pub enabled : ℕ → String → List String → Security → Security
  enabled now secret backup_codes s = record s {
    is_two_factor_enabled = true;
    two_factor_secret = some (tools.encrypt secret);
    two_factor_token = none;
    two_factor_backup_codes = some (map tools.hash backup_codes);
    two_factor_enabled_at = some now;
    two_factor_backup_codes_generated_at = some now;
  }

  -- `backup_codes` are the ten codes that are drawn.
  unfoldable pub enable_two_factor : ℕ → ℕ → String → List String → Call Accounts (List String)
  unfolding save_security
  enable_two_factor now user_id code backup_codes =
      catch_all not_found_or_bad (internal "Failed to enable 2FA") do
        s ← need_security user_id
        throw_if s.is_two_factor_enabled
            (bad_request "Two-factor authentication is already enabled")
        secret ←
            or_throw (non_empty s.two_factor_token)
              (bad_request "2FA setup not initiated. Please run setup first.")
        if tools.totp secret code now
            then pure tt
            else reject now user_id "Invalid verification code"
        reset_rate_limit user_id
        save_security user_id (enabled now secret backup_codes s)
        pure backup_codes

  abbrev pub disabled : Security → Security
  disabled s = record s {
    is_two_factor_enabled = false;
    two_factor_secret = none;
    two_factor_token = none;
    two_factor_backup_codes = none;
    two_factor_enabled_at = none;
    two_factor_last_verified = none;
    two_factor_backup_codes_generated_at = none;
  }

  abbrev password_of : Option User → String
  password_of none = ""
  password_of (some u) = u.password

  unfoldable pub disable_two_factor : ℕ → String → Call Accounts ⊤
  unfolding save_security
  disable_two_factor user_id password =
      catch_all not_found_bad_or_unauthorized (internal "Failed to disable 2FA") do
        s ← need_security user_id
        throw_if (not s.is_two_factor_enabled)
            (bad_request "Two-factor authentication is not enabled")
        known ← gets (λ a. password_of (find_user user_id a))
        throw_if (not (tools.compare password known)) (unauthorized "Invalid password")
        save_security user_id (disabled s)
        reset_rate_limit user_id
