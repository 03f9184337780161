-- ===== src/Redis/Limit.antt =====
-- checkRateLimit of src/libs/redis/src/redis.service.ts.
pub mod Tally
use Prim.Native.Nat.{◌/◌}
use Prim.Native.String.{String}
use enix_backend.Base.{ℕ, suc, ◌+◌, ◌-◌, ◌*◌, Bool, true, ℤ, pos, negsuc, leb, ◌==◌, if◌then◌else◌}
use enix_backend.Effects.{Ended, returned, threw, Call}
use enix_backend.Redis.Client.{Client, Counters, command}
use enix_backend.Redis.Keys.{rate_limit}

-- `RateLimitOptions`: so many requests in so many seconds
pub record LimitOptions : Type 0 where
  pub limit : ℕ
  pub window : ℕ

pub record Limited : Type 0 where
  pub allowed : Bool
  pub remaining : ℕ
  pub reset_at : ℤ

abbrev pub plus : ℕ → ℤ → ℤ
plus n (pos m) = pos (n + m)
plus n (negsuc m) = if leb (suc m) n then pos (n - suc m) else negsuc (m - n)

module _ (redis : Counters) where
  abbrev pub expire_first : ℕ → String → ℕ → ℕ → redis.State → redis.State
  expire_first now key window current s = if current == 1 then redis.expire now key window s else s

  abbrev script_answer : ℕ → String → ℕ → ℕ → redis.State → Limited
  script_answer now key limit current s = record {
    allowed = leb current limit;
    remaining = limit - current;
    reset_at = plus (now / 1000) (redis.ttl now key s);
  }

  -- the script, with the tests of its answer
  abbrev pub limit_script : ℕ → String → LimitOptions → redis.State → Limited × redis.State
  limit_script now key options s =
      let counted : redis.State =
        expire_first now key options.window (redis.incr now key s).0 (redis.incr now key s).1 in
      (script_answer now key options.limit (redis.incr now key s).0 counted, counted)

  -- `catch (error) { ... }`: the request is allowed.
  abbrev or_allowed :
      ℕ → LimitOptions → Ended (Client redis.State) Limited → Ended (Client redis.State) Limited
  or_allowed now options (returned a c) = returned a c
  or_allowed now options (threw e c) =
      returned
        (record {
          allowed = true;
          remaining = options.limit;
          reset_at = pos (now + options.window * 1000);
        })
        c

  unfoldable pub check_rate_limit :
      String → ℕ → String → String → LimitOptions → Call (Client redis.State) Limited
  check_rate_limit prefix now identifier action options c =
      or_allowed now options
        (command (limit_script now (rate_limit prefix identifier action) options) c)
