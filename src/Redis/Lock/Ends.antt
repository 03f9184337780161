-- ===== src/Redis/Lock/Ends.antt =====
-- The loop of acquireLock: when it stops, and what it leaves behind.
use Prim.Native.Nat.{◌/◌}
use Prim.Native.String.{String}
use native.Mathlib.Omega.{div_any}
use native.Mathlib.Nat.{mod-lt}
use enix_backend.Base.{
  ℕ, zero, suc, ◌+◌, ◌*◌, ◌≤◌, ◌<◌, ◌≡◌, inl, inr, refl, ⊤, Bool, true, false, Option, none, some,
  List, [], ◌∷◌, arith, ltb, Option-cases, if◌then◌else◌,
}
use enix_backend.Http.{failure}
use enix_backend.Effects.{Ended, returned, threw, Call, pure, after}
use enix_backend.Redis.Client.{Client, Locks, with_faults}
use enix_backend.Redis.Keys.{lock}
use enix_backend.Redis.Lock.{LockOptions, or_default, delay, Round, acquire_rounds, acquire_lock}

or_default-pos : (o : Option ℕ) (d : ℕ) → 0 < d → 0 < or_default o d
or_default-pos none d h = h
or_default-pos (some n) d h = ground arith

delay-pos : (options : LockOptions) → 0 < delay options
delay-pos options = or_default-pos options.retry_delay 100 (omega arith)

div-covers : (a d : ℕ) → 0 < d → a ≤ suc (a / d) * d
div-covers a d h = omega (arith, div_any a d, mod-lt a h)

module _ (redis : Locks) where
  -- From some time on, and for as long as it was asked for, the key holds the identifier.
  abbrev pub IsHeld : ℕ → String → String → redis.State → Type 0
  IsHeld px key id s = (at : ℕ) × ((t : ℕ) → at ≤ t → t < at + px → redis.get t key s ≡ some id)

  -- The call threw as the command did, or gave up, or came back with a lock that is held.
  abbrev pub HasEnded :
      ℕ → String → String → Ended (Client redis.State) (Option (Option String)) → Type 0
  HasEnded px key id (threw e c) = e ≡ failure
  HasEnded px key id (returned none c) = ⊥
  HasEnded px key id (returned (some none) c) = ⊤
  HasEnded px key id (returned (some (some got)) c) = (got ≡ id) × IsHeld px key id c.server

  -- The client's clock goes on by at least the delay from one round to the next.
  abbrev pub GoesOn : LockOptions → (ℕ → Round redis.State) → Type 0
  GoesOn options rounds = (n : ℕ) → (rounds n).reading + delay options ≤ (rounds (suc n)).reading

  module _ (options : LockOptions) (start : ℕ) (rounds : ℕ → Round redis.State) (key id : String)
      (goes_on : GoesOn options rounds) where
    set_nx-IsHeld :
        (now : ℕ) (s : redis.State)
        → (redis.set_nx now key id options.timeout s).0 ≡ true
        → IsHeld options.timeout key id (redis.set_nx now key id options.timeout s).1
    set_nx-IsHeld now s done = elim (Option-cases (redis.get now key s)) [
      | inl free ↦
          (now, λ t from before. redis.get_set now t key id options.timeout s free from before)
      | inr (w, taken) ↦ absurd (ground (arith, redis.set_taken now key id w options.timeout s))
    ]

    if-HasEnded :
        (b : Bool) (x y : Call (Client redis.State) (Option (Option String)))
        (c : Client redis.State)
        → (b ≡ true → HasEnded options.timeout key id (x c))
        → (b ≡ false → HasEnded options.timeout key id (y c))
        → HasEnded options.timeout key id ((if b then x else y) c)
    if-HasEnded true x y c h j = h refl
    if-HasEnded false x y c h j = j refl

    attempt-HasEnded :
        (now : ℕ) (rest : Call (Client redis.State) (Option (Option String))) (fs : List Bool)
        (s : redis.State)
        → ((d : Client redis.State) → HasEnded options.timeout key id (rest d))
        → HasEnded options.timeout key id (
            after
              (with_faults fs (redis.set_nx now key id options.timeout) s)
              λ taken. if taken then pure (some (some id)) else rest)
    attempt-HasEnded now rest (true ∷ fs) s later = refl
    attempt-HasEnded now rest (false ∷ fs) s later =
        if-HasEnded _ (pure (some (some id))) rest _ (λ e. (refl, set_nx-IsHeld now s e))
          (λ e. later _)
    attempt-HasEnded now rest [] s later =
        if-HasEnded _ (pure (some (some id))) rest _ (λ e. (refl, set_nx-IsHeld now s e))
          (λ e. later _)

    -- With so many rounds left as the time that is left needs, the loop stops.
    acquire_rounds-HasEnded :
        (k n : ℕ) (c : Client redis.State)
        → start + options.timeout ≤ (rounds n).reading + k * delay options
        → HasEnded options.timeout key id
            (acquire_rounds redis (suc k) n options start rounds key id c)
    unfolding acquire_rounds
    acquire_rounds-HasEnded zero n c left =
        if-HasEnded (ltb (rounds n).reading (start + options.timeout)) _ _ c
          (λ on. absurd (ground (arith, on, left))) (λ over. tt)
    acquire_rounds-HasEnded (suc k) n c left =
        if-HasEnded (ltb (rounds n).reading (start + options.timeout)) _ _ c
          (λ on.
            attempt-HasEnded (rounds n).arrival _ c.faults _
              (λ d. acquire_rounds-HasEnded k (suc n) d (ground (arith, goes_on n, left))))
          (λ over. tt)

  -- If the clock of the client goes on by at least the retry delay from one round to the next and
  -- does not start before the call, acquireLock stops within its rounds, whatever others do to the
  -- server in between: it throws only what a command threw, or it gives up, or it answers with its
  -- own identifier, which then holds the key for the whole of the timeout that was asked for.
  pub acquire_lock-HasEnded :
      (prefix : String) (options : LockOptions) (start : ℕ) (rounds : ℕ → Round redis.State)
      (key id : String) (c : Client redis.State)
      → GoesOn options rounds
      → start ≤ (rounds 0).reading
      → HasEnded options.timeout
          (lock prefix key none)
          id
          (acquire_lock redis prefix options start rounds key id c)
  unfolding acquire_lock
  acquire_lock-HasEnded prefix options start rounds key id c goes_on early =
      acquire_rounds-HasEnded options start rounds (lock prefix key none) id goes_on
        (suc (options.timeout / delay options)) 0 c
        (omega (arith, early, div-covers options.timeout (delay options) (delay-pos options)))
