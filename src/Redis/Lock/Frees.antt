-- ===== src/Redis/Lock/Frees.antt =====
-- withLock: what is left of the lock once the function has run.
use Prim.Native.String.{String}
use text.Mathlib.TextPositions.{eq_refl}
use enix_backend.Base.{ℕ, ◌≡◌, refl, none, some, []}
use enix_backend.Effects.{Ended, returned, threw, Call, final, result, after, pure}
use enix_backend.Redis.Client.{Client, Locks}
use enix_backend.Redis.Keys.{lock}
use enix_backend.Redis.Lock.{LockOptions, Round, finally, acquire_lock, release_lock, with_lock}

module _ (redis : Locks) (prefix key id : String) (ending : ℕ) where
  -- Nobody holds the lock.
  abbrev pub IsFree : Client redis.State → Type 0
  IsFree c = (t : ℕ) → redis.get t (lock prefix key none) c.server ≡ none

  release_lock-IsFree :
      (c : Client redis.State)
      → redis.get ending (lock prefix key none) c.server ≡ some id
      → c.faults ≡ []
      → IsFree (final (release_lock redis prefix ending key id c))
  unfolding release_lock
  release_lock-IsFree c held calm =
      rw calm (rw held (rw (eq_refl id) (λ t. redis.get_del t (lock prefix key none) c.server)))

  module _ {A : Type 0} where
    finally-IsFree :
        (o : Ended (Client redis.State) A)
        → redis.get ending (lock prefix key none) (final o).server ≡ some id
        → (final o).faults ≡ []
        → (result
              (after (finally redis o (release_lock redis prefix ending key id)) λ a. pure (some a))
            ≡ result (after o (λ a. pure (some a))))
          × IsFree (
              final (
                after
                  (finally redis o (release_lock redis prefix ending key id))
                  λ a. pure (some a)))
    finally-IsFree (returned a c) held calm = (refl, release_lock-IsFree c held calm)
    finally-IsFree (threw e c) held calm = (refl, release_lock-IsFree c held calm)

    -- If withLock gets the lock, its function leaves the lock to it and the release does not fail,
    -- then withLock ends as the function does, by an answer or by a throw, and afterwards nobody
    -- holds the lock.
    pub with_lock-IsFree :
        (options : LockOptions) (start : ℕ) (rounds : ℕ → Round redis.State)
        (fn : Call (Client redis.State) A) (c d : Client redis.State)
        → acquire_lock redis prefix options start rounds key id c ≡ returned (some (some id)) d
        → redis.get ending (lock prefix key none) (final (fn d)).server ≡ some id
        → (final (fn d)).faults ≡ []
        → (result (with_lock redis prefix options start rounds key id ending fn c)
            ≡ result (after (fn d) (λ a. pure (some a))))
          × IsFree (final (with_lock redis prefix options start rounds key id ending fn c))
    unfolding with_lock
    with_lock-IsFree options start rounds fn c d acquired held calm =
        rw acquired (finally-IsFree (fn d) held calm)
