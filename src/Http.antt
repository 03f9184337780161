-- ===== src/Http.antt =====
-- What a handler hands to the framework: a value, or one of the framework's exceptions with its
-- message (`src/filters` turns an exception into the response).
use Prim.Native.String.{String}
use enix_backend.Base.{ℕ, ⊤, Bool, true, false, Option, none, some}

pub data Error : Type 0 where
  bad_request unauthorized forbidden not_found internal too_many : String → Error
  -- an `HttpException` with another status
  status : ℕ → String → Error
  -- anything else that is thrown, such as an error of the database or of Redis
  failure : Error

pub data Result {ℓ} (A : Type ℓ) : Type ℓ where
  ok : A → Result A
  err : Error → Result A

infixl 5 ◌>>=◌ ◌>>◌
abbrev pub ◌>>=◌ {ℓ κ} : {A : Type ℓ} {B : Type κ} → Result A → (A → Result B) → Result B
ok a >>= f = f a
err e >>= f = err e

abbrev pub ◌>>◌ {ℓ} : {B : Type ℓ} → Result ⊤ → Result B → Result B
m >> k = m >>= λ _. k

-- `if (bad) throw e;`
abbrev pub throw_if : Bool → Error → Result ⊤
throw_if true e = err e
throw_if false e = ok tt

-- `if (!value) throw e;`
abbrev pub or_throw {ℓ} : {A : Type ℓ} → Option A → Error → Result A
or_throw none e = err e
or_throw (some a) e = ok a

-- The exceptions that the handlers' `catch` blocks tell apart by `instanceof`.
abbrev pub is_not_found : Error → Bool
is_not_found (not_found _) = true
is_not_found _ = false

abbrev pub is_bad_request : Error → Bool
is_bad_request (bad_request _) = true
is_bad_request _ = false

abbrev pub is_forbidden : Error → Bool
is_forbidden (forbidden _) = true
is_forbidden _ = false

abbrev pub is_unauthorized : Error → Bool
is_unauthorized (unauthorized _) = true
is_unauthorized _ = false
