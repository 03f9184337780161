-- ===== src/Redis/Tests.antt =====
-- The theorems on locks at a concrete server.
pub mod Memory
mod Tagged
use Prim.Native.String.{String}
use text.Mathlib.Text.{◌==◌ as str_eq}
use text.Mathlib.TextEquality.{eq_iff}
use enix_backend.Base.{
  ℕ, suc, ◌+◌, ◌*◌, ◌≤◌, ◌<◌, ◌≡◌, refl, inl, inr, Bool, true, false, Option, none, some, List, [],
  ◌∷◌, arith,
}
use enix_backend.Effects.{Ended, returned, threw, Call, final, result, pure, after}
use enix_backend.Redis.Client.{Client, Locks}
use enix_backend.Redis.Keys.{lock}
use enix_backend.Redis.Lock.{
  LockOptions, Round, acquire_rounds, acquire_lock, release_lock, with_lock,
}
use enix_backend.Redis.Lock.Ends.{HasEnded, acquire_lock-HasEnded}
use enix_backend.Redis.Lock.Exclusive.{
  Message, take, release, serve, Reach, here, next, lock-IsExclusive,
}
use enix_backend.Redis.Lock.Frees.{IsFree, with_lock-IsFree}
use enix_backend.Redis.Tests.Memory.{locks}

abbrev options : LockOptions
options = record { timeout = 1000; retry_delay = none }

-- the k-th round, 100 ms after the one before, with nobody else about
abbrev rounds : ℕ → Round locks.State
rounds k = record { reading = 50 + 100 * k; arrival = 50 + 100 * k; others = λ s. s }

abbrev empty : Client locks.State
unfolding locks
empty = record { server = λ k. none; faults = [] }

acquire_lock-HasEnded_example :
    HasEnded locks 1000
      (lock "app" "post" none)
      "a"
      (acquire_lock locks "app" options 0 rounds "post" "a" empty)
acquire_lock-HasEnded_example =
    acquire_lock-HasEnded locks "app" options 0 rounds "post" "a" empty (λ n. omega arith)
      (omega arith)

abbrev key : String
key = lock "app" "post" none

-- the server once `a` has taken the lock for a second
abbrev taken : locks.State
taken = (locks.set_nx 50 key "a" 1000 empty.server).1

abbrev contended : locks.State
contended = (serve locks (take 100 key "b" 1000) taken).1

different : ¬ (str_eq "a" "b" ≡ true)
different e = cc

lock-IsExclusive_example :
    (locks.get 500 key contended ≡ some "a")
    × ((id : String) (px : ℕ) → serve locks (take 500 key id px) contended ≡ (false, contended))
    × ((id : String)
        → ¬ (id ≡ "a")
        → serve locks (release 500 key id) contended ≡ (false, contended))
    × (serve locks (release 500 key "a") contended ≡ (true, locks.del key contended))
unfolding locks
lock-IsExclusive_example =
    lock-IsExclusive locks 50 1050 key "a" taken contended (λ t late early. ground arith)
      (next (take 100 key "b" 1000) here
        (omega arith, omega arith, inr (λ same. different ((eq_iff "a" "b").1 same))))
      500 (omega arith) (omega arith)

abbrev seven : Call (Client locks.State) ℕ
seven = pure 7

with_lock-IsFree_example :
    (result (with_lock locks "app" options 0 rounds "post" "a" 200 seven empty)
      ≡ result (after (seven empty) (λ n. pure (some n))))
    × IsFree locks "app" "post" "a" 200
        (final (with_lock locks "app" options 0 rounds "post" "a" 200 seven empty))
unfolding locks acquire_lock
with_lock-IsFree_example =
    with_lock-IsFree locks "app" "post" "a" 200 options 0 rounds seven empty _ refl refl refl
