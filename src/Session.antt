-- ===== src/Session.antt =====
-- The session of a request: src/common/interfaces/authenticated-request.interface.ts. Identifiers
-- (UUID texts) are only compared, so they are numbers; a time is in milliseconds.
use Prim.Native.String.{String}
use enix_backend.Base.{ℕ, Bool, Option, none, some}
use enix_backend.Roles.{Role}

pub record SessionUser : Type 0 where
  pub id : ℕ
  pub email : String
  pub username : String
  pub display_name : String
  pub role : Role
  pub websocket_id : ℕ
  pub is_verified : Bool

pub record PendingLogin : Type 0 where
  pub user_id : ℕ
  pub email : String
  pub password_verified : Bool
  pub created_at : ℕ

pub record Session : Type 0 where
  pub user : Option SessionUser
  pub pending_login : Option PendingLogin

pub record Request : Type 0 where
  pub user : Option SessionUser
  pub session : Option Session

-- `request.session?.user`
abbrev pub session_user : Option Session → Option SessionUser
session_user none = none
session_user (some s) = s.user

-- `a || b` on values that may be missing
abbrev pub or_else {ℓ} : {A : Type ℓ} → Option A → Option A → Option A
or_else (some a) b = some a
or_else none b = b

-- `request.user || request.session?.user`
abbrev pub request_user : Request → Option SessionUser
request_user r = or_else r.user (session_user r.session)
