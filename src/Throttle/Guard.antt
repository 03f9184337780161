-- ===== src/Throttle/Guard.antt =====
-- src/libs/throttle/src/guards/throttle.guard.ts.
use Prim.Native.String.{String, ◌++◌, slice}
use text.Mathlib.Text.{find?, ◌==◌ as str_eq}
use enix_backend.Base.{ℕ, ◌==◌, ⊤, Bool, false, not, Option, none, some, ℤ, if◌then◌else◌}
use enix_backend.Http.{too_many}
use enix_backend.Effects.{Ended, returned, threw, Call, pure, modify, throw_if, ◌>>=◌, ◌>>◌}
use enix_backend.Redis.Client.{Client, Counters}
use enix_backend.Redis.Limit.{LimitOptions}
use enix_backend.Throttle.Service.{ThrottleResult, check_rate_limit}

pub record HttpRequest : Type 0 where
  pub user : Option String
  pub ip : Option String
  pub remote_address : Option String
  pub forwarded_for : Option String
  pub real_ip : Option String
  pub method : String
  pub route_path : Option String
  pub path : String

pub record ThrottleOptions : Type 0 where
  pub limit : ℕ
  pub ttl : ℕ
  pub get_identifier : Option (HttpRequest → String)
  pub skip_if : Option (HttpRequest → Bool)
  pub error_message : Option String

-- What the decorators have put on the handler or its class.
pub record Route : Type 0 where
  pub skip : Bool
  pub options : Option ThrottleOptions

pub record Config : Type 0 where
  pub prefix : String
  pub default_limit : ℕ
  pub default_ttl : ℕ

-- `a || b` on texts that may be missing: the empty text counts as missing.
abbrev or_text : Option String → String → String
or_text none t = t
or_text (some s) t = if str_eq s "" then t else s

-- `text.split(',')[0]`
abbrev up_to : String → Option ℕ → String
up_to s none = s
up_to s (some k) = slice s 0 k

abbrev first_part : Option String → Option String
first_part none = none
first_part (some s) = some (up_to s (find? s ","))

abbrev ip_of : HttpRequest → String
ip_of r =
    or_text r.ip (
      or_text r.remote_address (or_text (first_part r.forwarded_for) (or_text r.real_ip "unknown")))

abbrev user_or_ip : Option String → HttpRequest → String
user_or_ip none r = "ip:" ++ ip_of r
user_or_ip (some id) r = if str_eq id "" then "ip:" ++ ip_of r else "user:" ++ id

unfoldable pub get_default_identifier : HttpRequest → String
get_default_identifier r = user_or_ip r.user r

-- `throttleOptions?.limit || this.defaultLimit`, and the like
abbrev or_number : ℕ → ℕ → ℕ
or_number n d = if n == 0 then d else n

abbrev pub limit_of : Option ThrottleOptions → Config → LimitOptions
limit_of none config = record { limit = config.default_limit; window = config.default_ttl }
limit_of (some o) config = record {
  limit = or_number o.limit config.default_limit;
  window = or_number o.ttl config.default_ttl;
}

abbrev test : Option (HttpRequest → Bool) → HttpRequest → Bool
test none r = false
test (some p) r = p r

abbrev pub skips : Option ThrottleOptions → HttpRequest → Bool
skips none r = false
skips (some o) r = test o.skip_if r

abbrev asked : Option (HttpRequest → String) → HttpRequest → String
unfolding get_default_identifier
asked none r = get_default_identifier r
asked (some f) r = f r

abbrev pub identifier_of : Option ThrottleOptions → HttpRequest → String
unfolding get_default_identifier
identifier_of none r = get_default_identifier r
identifier_of (some o) r = asked o.get_identifier r

abbrev pub action_of : HttpRequest → String
action_of r = r.method ++ (":" ++ or_text r.route_path r.path)

abbrev message_of : (ℕ → ℕ → String) → Option ThrottleOptions → LimitOptions → String
message_of wording none l = wording l.limit l.window
message_of wording (some o) l = or_text o.error_message (wording l.limit l.window)

-- the X-RateLimit headers of a response
pub record RateHeaders : Type 0 where
  pub limit : ℕ
  pub remaining : ℕ
  pub reset : ℤ

pub record Gate (S : Type 0) : Type 0 where
  pub client : Client S
  pub headers : Option RateHeaders

module _ (redis : Counters) where
  abbrev in_gate :
      {A : Type 0} → Option RateHeaders → Ended (Client redis.State) A → Ended (Gate redis.State) A
  in_gate headers (returned a c) = returned a (record { client = c; headers = headers })
  in_gate headers (threw e c) = threw e (record { client = c; headers = headers })

  abbrev on_client : {A : Type 0} → Call (Client redis.State) A → Call (Gate redis.State) A
  on_client m g = in_gate g.headers (m g.client)

  -- the headers, and the answer to a request over the limit
  abbrev pub conclude : String → LimitOptions → ThrottleResult → Call (Gate redis.State) ⊤
  conclude message options result = do
    modify λ g. record g {
      headers =
          some (record {
            limit = options.limit;
            remaining = result.remaining;
            reset = result.reset_at;
          });
    }
    throw_if (not result.allowed) (too_many message)

  abbrev pub limited :
      (ℕ → ℕ → String)
      → Config
      → Option ThrottleOptions
      → ℕ
      → HttpRequest
      → Call (Gate redis.State) ⊤
  unfolding check_rate_limit
  limited wording config options now r = do
    result ← on_client (
        check_rate_limit redis config.prefix now (identifier_of options r) (action_of r)
          (limit_of options config))
    conclude (message_of wording options (limit_of options config)) (limit_of options config) result

  -- It returns where `canActivate` returns true. `wording` is the text of the default message.
  unfoldable pub throttle_guard :
      (ℕ → ℕ → String) → Config → Route → ℕ → HttpRequest → Call (Gate redis.State) ⊤
  unfolding check_rate_limit
  throttle_guard wording config route now r =
      if route.skip
      then pure tt
      else (if skips route.options r then pure tt else limited wording config route.options now r)
