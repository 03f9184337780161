-- ===== src/Throttle/Service.antt =====
-- src/libs/throttle/src/throttle.service.ts.
use Prim.Native.Nat.{◌/◌}
use Prim.Native.String.{String}
use enix_backend.Base.{ℕ, ◌+◌, ◌-◌, ⊤, Bool, true, ℤ, pos}
use enix_backend.Effects.{Ended, returned, threw, Call, final}
use enix_backend.Redis.Client.{Client, Counters, command}
use enix_backend.Redis.Keys.{rate_limit}
use enix_backend.Redis.Limit as Redis
use enix_backend.Redis.Limit.{LimitOptions, Limited}

pub record ThrottleResult : Type 0 where
  pub allowed : Bool
  pub remaining : ℕ
  pub reset_at : ℤ
  pub current : ℕ
  pub limit : ℕ

module _ (redis : Counters) where
  abbrev throttled :
      ℕ
      → LimitOptions
      → Ended (Client redis.State) Limited
      → Ended (Client redis.State) ThrottleResult
  throttled now options (returned a c) =
      returned
        (record {
          allowed = a.allowed;
          remaining = a.remaining;
          reset_at = a.reset_at;
          current = options.limit - a.remaining;
          limit = options.limit;
        })
        c
  throttled now options (threw e c) =
      returned
        (record {
          allowed = true;
          remaining = options.limit;
          reset_at = pos (now / 1000 + options.window);
          current = 0;
          limit = options.limit;
        })
        c

  unfoldable pub check_rate_limit :
      String → ℕ → String → String → LimitOptions → Call (Client redis.State) ThrottleResult
  unfolding Redis.check_rate_limit
  check_rate_limit prefix now identifier action options c =
      throttled now options (Redis.check_rate_limit redis prefix now identifier action options c)

  -- errors are logged and dropped
  unfoldable pub reset_rate_limit : String → String → String → Call (Client redis.State) ⊤
  reset_rate_limit prefix identifier action c =
      returned tt
        (final (command {A = ⊤} (λ s. (tt, redis.del (rate_limit prefix identifier action) s)) c))

  unfoldable pub get_rate_limit_status :
      String → ℕ → String → String → LimitOptions → Call (Client redis.State) ThrottleResult
  unfolding check_rate_limit
  get_rate_limit_status = check_rate_limit
