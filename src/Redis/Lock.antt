-- ===== src/Redis/Lock.antt =====
-- acquireLock, releaseLock and withLock of src/libs/redis/src/redis.service.ts.

pub mod Ends
pub mod Exclusive
pub mod Frees
use Prim.Native.Nat.{◌/◌}
use Prim.Native.String.{String}
use text.Mathlib.Text.{◌==◌ as str_eq}
use enix_backend.Base.{
  ℕ, zero, suc, ◌+◌, Bool, true, false, Option, none, some, ltb, ◌==◌, if◌then◌else◌,
}
use enix_backend.Http.{Error, failure}
use enix_backend.Effects.{Ended, returned, threw, Call, pure, modify, after, ◌>>=◌, ◌>>◌, final}
use enix_backend.Redis.Client.{Client, Locks, command}
use enix_backend.Redis.Keys.{lock}

-- `DistributedLockOptions`
pub record LockOptions : Type 0 where
  pub timeout : ℕ
  pub retry_delay : Option ℕ

-- `options.retryDelay || 100`
abbrev pub or_default : Option ℕ → ℕ → ℕ
or_default none d = d
or_default (some n) d = if n == 0 then d else n

abbrev pub delay : LockOptions → ℕ
delay options = or_default options.retry_delay 100

-- What a round of the loop meets: the client's clock as the condition is tested, the server's as
-- the command arrives, and what other clients have done to the server in the meantime.
pub record Round (S : Type 0) : Type 0 where
  pub reading : ℕ
  pub arrival : ℕ
  pub others : S → S

module _ (redis : Locks) where
  abbrev pub LockClient : Type 0
  LockClient = Client redis.State

  -- `client.set(lockKey, lockId, 'PX', options.timeout, 'NX')`
  abbrev pub attempt : ℕ → String → String → ℕ → Call LockClient Bool
  attempt now key id px = command (redis.set_nx now key id px)

  -- The body of the loop, given what the rounds after it do.
  abbrev pub one_round :
      Round redis.State
      → LockOptions
      → String
      → String
      → Call LockClient (Option (Option String))
      → Call LockClient (Option (Option String))
  one_round round options key id rest = do
    modify λ c. record c { server = round.others c.server }
    taken ← attempt round.arrival key id options.timeout
    if taken then pure (some (some id)) else rest

  -- The `while` from its n-th round on: `none` when the fuel does not suffice, else what the
  -- function returns.
  unfoldable pub acquire_rounds :
      ℕ
      → ℕ
      → LockOptions
      → ℕ
      → (ℕ → Round redis.State)
      → String
      → String
      → Call LockClient (Option (Option String))
  acquire_rounds zero n options start rounds key id c = returned none c
  acquire_rounds (suc fuel) n options start rounds key id c =
      (if ltb (rounds n).reading (start + options.timeout)
          then one_round (rounds n) options key id
              (acquire_rounds fuel (suc n) options start rounds key id)
          else pure (some none))
        c

  unfoldable pub acquire_lock :
      String
      → LockOptions
      → ℕ
      → (ℕ → Round redis.State)
      → String
      → String
      → Call LockClient (Option (Option String))
  unfolding acquire_rounds
  acquire_lock prefix options start rounds key id =
      acquire_rounds (suc (suc (options.timeout / delay options))) 0 options start rounds
        (lock prefix key none) id

  -- the script of `releaseLock`
  abbrev pub holds : Option String → String → Bool
  holds none id = false
  holds (some holder) id = str_eq holder id

  abbrev pub delete_if : Bool → String → redis.State → Bool × redis.State
  delete_if true key s = (true, redis.del key s)
  delete_if false key s = (false, s)

  abbrev pub release_script : ℕ → String → String → redis.State → Bool × redis.State
  release_script now key id s = delete_if (holds (redis.get now key s) id) key s

  -- `catch (error) { ...; return false; }`
  abbrev or_false : Ended LockClient Bool → Ended LockClient Bool
  or_false (returned b c) = returned b c
  or_false (threw e c) = returned false c

  unfoldable pub release_lock : String → ℕ → String → String → Call LockClient Bool
  release_lock prefix now key id c =
      or_false (command (release_script now (lock prefix key none) id) c)

  -- `finally`
  abbrev pub finally : {A : Type 0} → Ended LockClient A → Call LockClient Bool → Ended LockClient A
  finally (returned a c) last = returned a (final (last c))
  finally (threw e c) last = threw e (final (last c))

  -- `if (!lockId) throw ...; try { return await fn(); } finally { await this.releaseLock(...); }`
  abbrev pub locked :
      {A : Type 0}
      → Call LockClient A
      → (String → Call LockClient Bool)
      → Option (Option String)
      → Call LockClient (Option A)
  locked fn release none c = returned none c
  locked fn release (some none) c = threw failure c
  locked fn release (some (some id)) c = after (finally (fn c) (release id)) (λ a. pure (some a))

  unfoldable pub with_lock :
      {A : Type 0}
      → String
      → LockOptions
      → ℕ
      → (ℕ → Round redis.State)
      → String
      → String
      → ℕ
      → Call LockClient A
      → Call LockClient (Option A)
  unfolding acquire_lock release_lock
  with_lock prefix options start rounds key id ending fn = do
    lock_id ← acquire_lock prefix options start rounds key id
    locked fn (release_lock prefix ending key) lock_id
