-- ===== src/Twofa/Tests.antt =====
-- The theorems on two-factor authentication at concrete accounts. Texts stand for themselves: a hash
-- is the text it is of, and the one code of a secret is the secret.
use Prim.Native.String.{String}
use text.Mathlib.Text.{◌==◌ as str_eq}
use enix_backend.Base.{ℕ, ◌≡◌, refl, true, false, none, some, List, [], ◌∷◌, arith}
use enix_backend.Http.{err, bad_request}
use enix_backend.Roles.{member}
use enix_backend.Effects.{final, result, threw}
use enix_backend.Accounts.{Accounts, User, Security}
use enix_backend.Twofa.{Tools, verify_two_factor}
use enix_backend.Twofa.Limit.{five_refusals-locked, after_tries}
use enix_backend.Twofa.Backup.{backup_code-once}

abbrev plain_tools : Tools
plain_tools = record {
  compare = str_eq;
  hash = λ s. s;
  totp = λ secret code now. str_eq secret code;
  encrypt = λ s. s;
  decrypt = some;
  upper = λ s. s;
}

abbrev secured : Security
secured = record {
  verification_token = none;
  is_verified = true;
  date_verified = none;
  is_banned = false;
  is_timed_out = false;
  timed_out_until = none;
  password_reset_token = none;
  password_reset_token_expires = none;
  is_two_factor_enabled = true;
  two_factor_secret = some "123456";
  two_factor_token = none;
  two_factor_backup_codes = some ("AAAA0001" ∷ "AAAA0002" ∷ []);
  two_factor_enabled_at = some 1;
  two_factor_last_verified = none;
  two_factor_backup_codes_generated_at = some 1;
}

abbrev a_user : User
a_user = record {
  id = 1;
  email = "a@example.org";
  username = "a";
  display_name = "A";
  role = member;
  password = "secret";
  websocket_id = 2;
  security = some secured;
}

abbrev some_accounts : Accounts
some_accounts = record { users = a_user ∷ []; attempts = λ k. none }

abbrev wrong_codes : List (ℕ × String)
wrong_codes = (10, "1") ∷ (11, "000000") ∷ (12, "AAAA0009") ∷ (13, "000001") ∷ (14, "2") ∷ []

five_refusals-locked_example :
    verify_two_factor plain_tools 20 1 "123456"
      (after_tries plain_tools 1 wrong_codes some_accounts)
    ≡ threw
        (bad_request "Too many failed attempts. Please try again in 15 minutes.")
        (after_tries plain_tools 1 wrong_codes some_accounts)
unfolding verify_two_factor
five_refusals-locked_example =
    five_refusals-locked plain_tools 1 10 wrong_codes 20 "123456" some_accounts refl
      (
        (omega arith, omega arith),
        (
          (omega arith, omega arith),
          (
            (omega arith, omega arith),
            ((omega arith, omega arith), ((omega arith, omega arith), tt)),
          ),
        ),
      )
      (secured, refl, refl) (λ t from before. refl)
      ((_, refl), ((_, refl), ((_, refl), ((_, refl), ((_, refl), tt))))) (omega arith)
      (omega arith)

abbrev once_used : Accounts
once_used = final (verify_two_factor plain_tools 10 1 "AAAA0001" some_accounts)

backup_code-once_example :
    result (verify_two_factor plain_tools 20 1 "AAAA0001" once_used)
    ≡ err (bad_request "Invalid backup code")
unfolding verify_two_factor
backup_code-once_example =
    backup_code-once plain_tools 1 "AAAA0001" refl 10 20 ("AAAA0001" ∷ "AAAA0002" ∷ [])
      some_accounts a_user secured (refl, refl, refl, refl) refl refl
