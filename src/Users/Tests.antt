-- ===== src/Users/Tests.antt =====
-- The theorem on the names of users at concrete accounts: one user is there.
use Prim.Native.String.{String}
use enix_backend.Base.{ℕ, refl, none, [], ◌∷◌}
use enix_backend.Effects.{final}
use enix_backend.Accounts.{Accounts}
use enix_backend.Auth.Registration.{Registration, new_user, register}
use enix_backend.Users.{UpdateUserDto, update_user}
use enix_backend.Users.Names.{HasOwnNames, register-update_user-HasOwnNames}

abbrev bob : Registration
bob = record {
  username = "bob";
  email = "bob@here";
  password = "secret";
  id = 3;
  websocket_id = 4;
  token = "t";
}

abbrev one_user : Accounts
one_user = record { users = new_user (λ s. s) bob ∷ []; attempts = λ k. none }

register-update_user-HasOwnNames_example :
    ((hash : String → String) (r : Registration) → HasOwnNames (final (register hash r one_user)))
    × ((id : ℕ) (dto : UpdateUserDto) → HasOwnNames (final (update_user id dto one_user)))
register-update_user-HasOwnNames_example =
    register-update_user-HasOwnNames one_user (((λ e. refl, tt), tt), ((λ e. refl, tt), tt))
