-- ===== src/Auth/Tests/Registered.antt =====
-- The theorem on registrations at concrete accounts: nobody is there yet.
use text.Mathlib.Text.{◌==◌ as str_eq}
use enix_backend.Base.{◌≡◌, refl, true, none, some, []}
use enix_backend.Http.{forbidden}
use enix_backend.Session.{Session}
use enix_backend.Effects.{returned, threw, final}
use enix_backend.Accounts.{Accounts}
use enix_backend.Twofa.{Tools}
use enix_backend.Auth.{login, login_successful, without_password}
use enix_backend.Auth.Registration.{Registration, register, verify_email}
use enix_backend.Auth.Registration.Verified.{
  IsNew, confirmed, as_member, register-verify_email-login,
}

abbrev tools : Tools
tools = record {
  compare = str_eq;
  hash = λ s. s;
  totp = λ secret code now. str_eq secret code;
  encrypt = λ s. s;
  decrypt = some;
  upper = λ s. s;
}

abbrev alice : Registration
alice = record {
  username = "alice";
  email = "alice@here";
  password = "secret";
  id = 1;
  websocket_id = 2;
  token = "t";
}

abbrev nobody : Accounts
nobody = record { users = []; attempts = λ k. none }

abbrev session : Session
session = record { user = none; pending_login = none }

alice-IsNew : IsNew alice nobody
alice-IsNew = record { ids = tt; emails = tt; usernames = tt; display_names = tt; tokens = tt }

register-verify_email-login_example :
    let b = final (register tools.hash alice nobody) in
    let c = final (verify_email 5 "t" b) in
    (login tools true 9 "alice@here" "secret" (record { accounts = b; session = some session })
      ≡ threw
          (forbidden "Please verify your email before logging in")
          (record { accounts = b; session = some session }))
    × (login tools true 9 "alice@here" "secret" (record { accounts = c; session = some session })
        ≡ returned
            (login_successful (without_password (confirmed tools alice nobody alice-IsNew 5)))
            (record {
              accounts = c;
              session =
                  some (record session { user = some (as_member tools alice nobody alice-IsNew) });
            }))
register-verify_email-login_example =
    register-verify_email-login tools alice nobody alice-IsNew 5 9 session refl
