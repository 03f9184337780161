-- ===== src/Effects.antt =====
-- How a call on a state ends: with an answer or with an exception, and with the state then. What was
-- written before a throw stays written.
use enix_backend.Base.{⊤, Bool, true, false, Option, none, some, if◌then◌else◌}
use enix_backend.Http.{Error, Result, ok, err}

pub data Ended (S A : Type 0) : Type 0 where
  returned : A → S → Ended S A
  threw : Error → S → Ended S A

abbrev pub Call : Type 0 → Type 0 → Type 0
Call S A = S → Ended S A

module _ {S A : Type 0} where
  abbrev pub final : Ended S A → S
  final (returned a s) = s
  final (threw e s) = s

  abbrev pub result : Ended S A → Result A
  result (returned a s) = ok a
  result (threw e s) = err e

  abbrev pub pure : A → Call S A
  pure a s = returned a s

  abbrev pub throw : Error → Call S A
  throw e s = threw e s

  abbrev pub gets : (S → A) → Call S A
  gets f s = returned (f s) s

  -- `if (!value) throw e;`
  abbrev pub or_throw : Option A → Error → Call S A
  or_throw none e s = threw e s
  or_throw (some a) e s = returned a s

  -- The `try`/`catch` of a handler: the exceptions that it knows pass, all others become `hidden`.
  abbrev pub caught : (Error → Bool) → Error → Ended S A → Ended S A
  caught known hidden (returned a s) = returned a s
  caught known hidden (threw e s) = threw (if known e then e else hidden) s

  abbrev pub catch_all : (Error → Bool) → Error → Call S A → Call S A
  catch_all known hidden m s = caught known hidden (m s)

module _ {S A B : Type 0} where
  abbrev pub after : Ended S A → (A → Call S B) → Ended S B
  after (returned a s) f = f a s
  after (threw e s) f = threw e s

  infixl 5 ◌>>=◌ ◌>>◌
  abbrev pub ◌>>=◌ : Call S A → (A → Call S B) → Call S B
  ◌>>=◌ m f s = after (m s) f

  abbrev pub ◌>>◌ : Call S A → Call S B → Call S B
  ◌>>◌ m k s = after (m s) (λ _. k)

module _ {S : Type 0} where
  -- `if (bad) throw e;`
  abbrev pub throw_if : Bool → Error → Call S ⊤
  throw_if true e s = threw e s
  throw_if false e s = returned tt s

  abbrev pub modify : (S → S) → Call S ⊤
  modify f s = returned tt (f s)
