-- ===== src/Throttle/Tests.antt =====
-- The theorem on the throttle guard at a concrete server.
use Prim.Native.String.{String}
use enix_backend.Base.{ℕ, ◌≡◌, refl, false, none, some, List, [], ◌∷◌, arith, count}
use enix_backend.Throttle.Guard.{HttpRequest, ThrottleOptions, Route, Config, Gate, limit_of}
use enix_backend.Throttle.Bound.{passed, passed-lesser, lesser, is_of, key_of}
use enix_backend.Redis.Tests.Memory.{counters}

abbrev request : String → HttpRequest
request ip = record {
  user = none;
  ip = some ip;
  remote_address = none;
  forwarded_for = none;
  real_ip = none;
  method = "GET";
  route_path = none;
  path = "/posts";
}

-- two requests in a minute
abbrev options : ThrottleOptions
options = record {
  limit = 2;
  ttl = 60;
  get_identifier = none;
  skip_if = none;
  error_message = none;
}

abbrev route : Route
route = record { skip = false; options = some options }

abbrev config : Config
config = record { prefix = "app"; default_limit = 100; default_ttl = 60 }

abbrev gate : Gate counters.State
unfolding counters
gate = record { client = record { server = λ k. none; faults = [] }; headers = none }

abbrev requests : List (ℕ × HttpRequest)
requests = (5, request "a") ∷ (6, request "b") ∷ (9, request "a") ∷ (30, request "a") ∷ []

abbrev key : String
key = key_of config route (request "a")

passed-lesser_example :
    passed counters (λ limit ttl. "Too many requests") config route key requests gate
    ≡ lesser (count (is_of config route key) requests) (limit_of route.options config).limit
unfolding counters
passed-lesser_example =
    passed-lesser counters (λ limit ttl. "Too many requests") config route key 0 requests gate refl
      (
        omega arith,
        omega arith,
        refl,
        (
          omega arith,
          omega arith,
          refl,
          (omega arith, omega arith, refl, (omega arith, omega arith, refl, tt)),
        ),
      )
      refl (λ t late early. refl)
