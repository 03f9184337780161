-- ===== src/Redis/Limit/Tally.antt =====
-- The script of checkRateLimit and the number that a key holds.
use Prim.Native.String.{String}
use enix_backend.Base.{
  ℕ, zero, suc, ◌+◌, ◌*◌, ◌≤◌, ◌<◌, ◌≡◌, ◌≢◌, ◌∙◌, inl, inr, Bool-cases, refl, Option, none, some,
  arith, leb, ◌==◌, false,
}
use enix_backend.Redis.Client.{Counters}
use enix_backend.Redis.Limit.{LimitOptions, limit_script, expire_first}

-- A key that has counted nothing is not there.
abbrev pub tally : ℕ → Option ℕ
tally zero = none
tally (suc n) = some (suc n)

module _ (redis : Counters) where
  -- At any time from `from` on and before `until`, the key has counted so many.
  abbrev pub IsTallied : ℕ → ℕ → String → ℕ → redis.State → Type 0
  IsTallied from until key n s = (t : ℕ) → from ≤ t → t < until → redis.value t key s ≡ tally n

  module _ (now until : ℕ) (key : String) (options : LimitOptions) where
    -- the first request of a window starts it
    first-IsTallied :
        (s : redis.State)
        → now < until
        → until ≤ now + 1000 * options.window
        → IsTallied now until key 0 s
        → ((limit_script redis now key options s).0.allowed ≡ leb 1 options.limit)
          × IsTallied now until key 1 (limit_script redis now key options s).1
    first-IsTallied s early short none_yet =
        let gone : redis.value now key s ≡ none = none_yet now (omega arith) early in
        let one : (redis.incr now key s).0 ≡ 1 = redis.incr_absent now key s gone in
        rw one (
          refl,
          λ t late before.
              redis.value_expire now t 1 key options.window _
                (redis.value_incr_absent now now key s gone (omega arith)) late
                (omega (arith, before, short)),
        )

    more-IsTallied :
        (n : ℕ) (s : redis.State)
        → now < until
        → IsTallied now until key (suc n) s
        → ((limit_script redis now key options s).0.allowed ≡ leb (suc (suc n)) options.limit)
          × IsTallied now until key (suc (suc n)) (limit_script redis now key options s).1
    more-IsTallied n s early some_yet =
        let here : redis.value now key s ≡ some (suc n) = some_yet now (omega arith) early in
        let next : (redis.incr now key s).0 ≡ suc (suc n) =
          redis.incr_present now (suc n) key s here in
        let later : (suc (suc n) == 1) ≡ false = ground arith in
        rw next (
          refl,
          λ t late before.
              rw later
                (redis.value_incr_present now t (suc n) key s here (some_yet t late before) late),
        )

    pub own-IsTallied :
        (n : ℕ) (s : redis.State)
        → now < until
        → until ≤ now + 1000 * options.window
        → IsTallied now until key n s
        → ((limit_script redis now key options s).0.allowed ≡ leb (suc n) options.limit)
          × IsTallied now until key (suc n) (limit_script redis now key options s).1
    own-IsTallied zero s early short h = first-IsTallied s early short h
    own-IsTallied (suc n) s early short h = more-IsTallied n s early h

    expire_first-other :
        (current t : ℕ) (j : String) (s : redis.State)
        → j ≢ key
        → redis.value t j (expire_first redis now key options.window current s) ≡ redis.value t j s
    expire_first-other current t j s other = elim (Bool-cases (current == 1)) [
      | inl e ↦ rw e (redis.value_expire_other now t key j options.window s other)
      | inr e ↦ rw e refl
    ]

    pub other-IsTallied :
        (from n : ℕ) (j : String) (s : redis.State)
        → j ≢ key
        → IsTallied from until j n s
        → IsTallied from until j n (limit_script redis now key options s).1
    other-IsTallied from n j s other h t late early =
        expire_first-other _ t j _ other
        ∙ redis.value_incr_other now t key j s other
        ∙ h t late early
