-- ===== src/Throttle/Bound.antt =====
-- How many requests of one client the throttle guard lets through.
use Prim.Native.String.{String}
use text.Mathlib.Text.{◌==◌ as str_eq}
use enix_backend.Base.Texts.{str_eq-cases}
use enix_backend.Base.{
  ℕ, suc, ◌+◌, ◌*◌, ◌≤◌, ◌<◌, ◌≡◌, ◌∙◌, subst, sym, refl, ⊤, Bool, true, false, List, [], ◌∷◌,
  arith, leb, ◌&&◌, inl, inr, Bool-cases, if◌then◌else◌, count,
}
use enix_backend.Effects.{Ended, returned, threw, final}
use enix_backend.Redis.Client.{Counters}
use enix_backend.Redis.Keys.{rate_limit}
use enix_backend.Redis.Limit as Redis
use enix_backend.Redis.Limit.{LimitOptions, Limited, limit_script}
use enix_backend.Redis.Limit.Tally.{IsTallied, own-IsTallied, other-IsTallied}
use enix_backend.Throttle.Service.{check_rate_limit}
use enix_backend.Throttle.Guard.{
  HttpRequest, Route, Config, Gate, skips, limit_of, identifier_of, action_of, throttle_guard,
}

-- the key that a request is counted under
abbrev pub key_of : Config → Route → HttpRequest → String
key_of config route r = rate_limit config.prefix (identifier_of route.options r) (action_of r)

abbrev pub is_returned : {S A : Type 0} → Ended S A → Bool
is_returned (returned a s) = true
is_returned (threw e s) = false

abbrev pub is_of : Config → Route → String → ℕ × HttpRequest → Bool
is_of config route key (now, r) = str_eq (key_of config route r) key

-- The route limits the request, and the times of the requests do not go back.
abbrev pub InOrder : Route → ℕ → ℕ → List (ℕ × HttpRequest) → Type 0
InOrder route from until [] = ⊤
InOrder route from until ((now, r) ∷ rs) =
    (from ≤ now) × (now < until) × (skips route.options r ≡ false) × InOrder route now until rs

abbrev pub one_if : Bool → ℕ
one_if true = 1
one_if false = 0

-- the smaller of the two numbers
abbrev pub lesser : ℕ → ℕ → ℕ
lesser a b = if leb a b then a else b

-- One more request under the key.
one_more :
    (n count rest limit : ℕ) (passes : Bool)
    → passes ≡ leb (suc n) limit
    → lesser (suc n) limit + rest ≡ lesser (suc n + count) limit
    → lesser n limit + (one_if passes + rest) ≡ lesser (n + suc count) limit
one_more n count rest limit passes answer h = ground arith

none_more : (a rest c : ℕ) → a + rest ≡ c → a + (0 + rest) ≡ c
none_more a rest c h = omega arith

module _ (redis : Counters) (wording : ℕ → ℕ → String) (config : Config) (route : Route) where
  -- How many requests under the key pass, of a list in which each is handled after the other.
  abbrev pub passed : String → List (ℕ × HttpRequest) → Gate redis.State → ℕ
  passed key [] g = 0
  passed key ((now, r) ∷ rs) g =
      one_if (
        is_of config route key (now, r)
        && is_returned (throttle_guard redis wording config route now r g))
      + passed key rs (final (throttle_guard redis wording config route now r g))

  abbrev script : ℕ → HttpRequest → redis.State → Limited × redis.State
  script now r s = limit_script redis now (key_of config route r) (limit_of route.options config) s

  guard-passes :
      (now : ℕ) (r : HttpRequest) (g : Gate redis.State)
      → route.skip ≡ false
      → skips route.options r ≡ false
      → g.client.faults ≡ []
      → (is_returned (throttle_guard redis wording config route now r g)
          ≡ (script now r g.client.server).0.allowed)
        × ((final (throttle_guard redis wording config route now r g)).client
            ≡ record { server = (script now r g.client.server).1; faults = [] })
  unfolding throttle_guard check_rate_limit Redis.check_rate_limit
  guard-passes now r g on limited calm =
      elim (Bool-cases (script now r g.client.server).0.allowed) [
        | inl e ↦ rw on (rw limited (rw calm (rw e (refl, refl))))
        | inr e ↦ rw on (rw limited (rw calm (rw e (refl, refl))))
      ]

  own-at :
      (now from until n : ℕ) (k key : String) (options : LimitOptions) (s : redis.State)
      → k ≡ key
      → from ≤ now
      → now < until
      → until ≤ from + 1000 * options.window
      → IsTallied redis from until key n s
      → ((limit_script redis now k options s).0.allowed ≡ leb (suc n) options.limit)
        × IsTallied redis now until key (suc n) (limit_script redis now k options s).1
  own-at now from until n k key options s same late early short tallied =
      subst
        (λ j.
          ((limit_script redis now j options s).0.allowed ≡ leb (suc n) options.limit)
          × IsTallied redis now until key (suc n) (limit_script redis now j options s).1)
        (sym same)
        (own-IsTallied redis now until key options n s early (omega arith)
          λ t after before. tallied t (omega arith) before)

  passed-tallied :
      (key : String) (until n : ℕ) (rs : List (ℕ × HttpRequest)) (from : ℕ) (g : Gate redis.State)
      → route.skip ≡ false
      → until ≤ from + 1000 * (limit_of route.options config).window
      → InOrder route from until rs
      → g.client.faults ≡ []
      → IsTallied redis from until key n g.client.server
      → lesser n (limit_of route.options config).limit + passed key rs g
        ≡ lesser (n + count (is_of config route key) rs) (limit_of route.options config).limit
  passed-tallied key until n [] from g on short in_order calm tallied = ground arith
  passed-tallied key until n ((now, r) ∷ rs) from g on short (late, early, limited, in_order) calm
        tallied =
      let options : LimitOptions = limit_of route.options config in
      let (answer, after) = guard-passes now r g on limited calm in
      let later = λ (m : ℕ) (h : IsTallied redis now until key m (script now r g.client.server).1).
        passed-tallied key until m rs now
          (final (throttle_guard redis wording config route now r g)) on (omega arith) in_order
          (rw after refl) (rw after h) in
      elim (str_eq-cases (key_of config route r) key) [
        | inl (e, same) ↦
            let (allowed, next) =
              own-at now from until n _ key options g.client.server same late early short tallied in
            rw e (one_more n _ _ options.limit _ (answer ∙ allowed) (later (suc n) next))
        | inr (e, other) ↦ rw e (
            none_more _ _ _ (
              later n (
                other-IsTallied redis now until _ options now n key g.client.server
                  (λ same. other (sym same)) (λ t past before. tallied t (omega arith) before))))
      ]

  -- Of the requests that reach a limited route within one window, one after the other and mixed with
  -- those of other clients, with no command of Redis failing and nothing counted for the client
  -- before, exactly the smaller of the limit and of the number of his requests pass the guard.
  pub passed-lesser :
      (key : String) (from : ℕ) (rs : List (ℕ × HttpRequest)) (g : Gate redis.State)
      → route.skip ≡ false
      → InOrder route from (from + 1000 * (limit_of route.options config).window) rs
      → g.client.faults ≡ []
      → IsTallied redis from
          (from + 1000 * (limit_of route.options config).window)
          key
          0
          g.client.server
      → passed key rs g
        ≡ lesser (count (is_of config route key) rs) (limit_of route.options config).limit
  passed-lesser key from rs g on in_order calm fresh = ground (
    arith,
    passed-tallied key (from + 1000 * (limit_of route.options config).window) 0 rs from g on
        (omega arith) in_order calm fresh,
  )
