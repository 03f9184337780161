-- ===== src/Caching/Answers.antt =====
-- A request through the cache is answered, whichever commands of Redis fail.
use Prim.Native.String.{String}
use enix_backend.Base.{
  ℕ, ◌≡◌, refl, inl, inr, ⊤, Bool, true, false, Bool-cases, Option, none, some, List, [], ◌∷◌,
}
use enix_backend.Effects.{Ended, returned, threw, Call, after, ◌>>◌}
use enix_backend.Redis.Client.{Caches, with_faults}
use enix_backend.Redis.Tags as Tags
use enix_backend.Redis.Tags.{Json, read_back, cache_set, CacheClient, get_value, or_fetch}
use enix_backend.Caching.{
  LookupType, CacheOptions, UserFields, user_cache_key, ttl_of, user_tags, or_tags, or_else,
  or_again, fetch_and_cache, get_or_set, get_or_set_user, cache_user,
}

module _ {S A : Type 0} (Good : A → Type 0) where
  -- an answer, and a good one
  abbrev pub HasAnswered : Ended S A → Type 0
  HasAnswered (returned a s) = Good a
  HasAnswered (threw e s) = ⊥

  -- a good answer, or none
  abbrev pub IsSafe : Ended S A → Type 0
  IsSafe (returned a s) = Good a
  IsSafe (threw e s) = ⊤

  again-HasAnswered :
      (fetch : Call S A) (e : Ended S A)
      → ((s : S) → HasAnswered (fetch s))
      → IsSafe e
      → HasAnswered (or_again fetch e)
  again-HasAnswered fetch (returned a s) answers safe = safe
  again-HasAnswered fetch (threw e s) answers safe = answers s

  HasAnswered-IsSafe : (e : Ended S A) → HasAnswered e → IsSafe e
  HasAnswered-IsSafe (returned a s) h = h
  HasAnswered-IsSafe (threw e s) h = tt

  HasAnswered-return :
      {B : Type 0} (a : A) → Good a → (e : Ended S B) → IsSafe (after e (λ _ t. returned a t))
  HasAnswered-return a h (returned b t) = h
  HasAnswered-return a h (threw e t) = tt

  -- what follows an answer without changing it
  keep-IsSafe :
      {B : Type 0} (e : Ended S A) (f : A → Call S B)
      → IsSafe e
      → IsSafe (after e (λ a. f a >> (λ s. returned a s)))
  keep-IsSafe (returned a s) f h = HasAnswered-return a h (f a s)
  keep-IsSafe (threw e s) f h = tt

  keep-HasAnswered :
      (e : Ended S A) (f : A → Call S ⊤)
      → ((a : A) (s : S) → (u : S) × (f a s ≡ returned tt u))
      → HasAnswered e
      → HasAnswered (after e (λ a. f a >> (λ s. returned a s)))
  keep-HasAnswered (returned a s) f goes h = let (u, same) = goes a s in rw same h
  keep-HasAnswered (threw e s) f goes h = elim h [ ]

or_else-ends : {S : Type 0} (e : Ended S ⊤) → (u : S) × (or_else tt e ≡ returned tt u)
or_else-ends (returned a u) = (u, refl)
or_else-ends (threw e u) = (u, refl)

module _ {V W : Type 0} (redis : Caches W) (json : Json V W) (fields : UserFields V)
    (prefix : String) (now later : ℕ) (Good : V → Type 0) where
  fetch_and_cache-HasAnswered :
      (identifier : String) (fetch : Call (CacheClient redis) V) (options : CacheOptions)
      (tags : List String)
      → ((s : CacheClient redis) → HasAnswered Good (fetch s))
      → (s : CacheClient redis)
      → HasAnswered Good
          (fetch_and_cache redis json fields prefix now later identifier fetch options tags s)
  unfolding cache_user
  fetch_and_cache-HasAnswered identifier fetch options tags answers s =
      keep-HasAnswered Good (fetch s) _
        (λ user u. elim (Bool-cases (fields.is_user user)) [
          | inl given ↦ rw given (or_else-ends _)
          | inr missing ↦ rw missing (u, refl)
        ])
        (answers s)

  or_fetch-IsSafe :
      (key : String) (fn : Call (CacheClient redis) V) (ttl : Option ℕ) (tags : List String)
      → ((s : CacheClient redis) → HasAnswered Good (fn s))
      → (cached : Option V) → ((v : V) → cached ≡ some v → Good v)
      → (s : CacheClient redis)
      → IsSafe Good (or_fetch redis json prefix later key fn ttl tags cached s)
  or_fetch-IsSafe key fn ttl tags answers none good s =
      keep-IsSafe Good (fn s) _ (HasAnswered-IsSafe Good (fn s) (answers s))
  or_fetch-IsSafe key fn ttl tags answers (some v) good s = good v refl

  looked-IsSafe :
      (key : String) (f : Option V → Call (CacheClient redis) V) (faults : List Bool)
      (s : redis.State)
      → ((u : CacheClient redis) → IsSafe Good (f (read_back json (redis.get now key s)) u))
      → IsSafe Good
          (after (with_faults faults (λ s. (read_back json (redis.get now key s), s)) s) f)
  looked-IsSafe key f [] s h = h _
  looked-IsSafe key f (false ∷ faults) s h = h _
  looked-IsSafe key f (true ∷ faults) s h = tt

  looked_up-IsSafe :
      (key : String) (fn : Call (CacheClient redis) V) (ttl : Option ℕ) (tags : List String)
      → ((s : CacheClient redis) → HasAnswered Good (fn s))
      → (s : CacheClient redis)
      → ((v : V) → read_back json (redis.get now key s.server) ≡ some v → Good v)
      → IsSafe Good (Tags.get_or_set redis json prefix now later key fn ttl tags s)
  unfolding Tags.get_or_set
  looked_up-IsSafe key fn ttl tags answers s good =
      looked-IsSafe key (λ a u. or_fetch redis json prefix later key fn ttl tags a u) s.faults
        s.server
        (or_fetch-IsSafe key fn ttl tags answers (read_back json (redis.get now key s.server)) good)

  -- Whichever commands of Redis fail, if fetching always answers, and answers well, and if what is
  -- read of the cache under the key of the request is a good answer, then getOrSetUser and getOrSet
  -- do not throw and give a good answer.
  pub cached-HasAnswered :
      (kind : LookupType) (identifier key : String) (fetch : Call (CacheClient redis) V)
      (options : CacheOptions) (s : CacheClient redis)
      → ((u : CacheClient redis) → HasAnswered Good (fetch u))
      → ((v : V)
          → read_back json (redis.get now (user_cache_key prefix kind identifier) s.server) ≡ some v
          → Good v)
      → ((v : V) → read_back json (redis.get now key s.server) ≡ some v → Good v)
      → HasAnswered Good
          (get_or_set_user redis json fields prefix now later kind identifier fetch options s)
        × HasAnswered Good (get_or_set redis json fields prefix now later key fetch options s)
  unfolding get_or_set_user get_or_set
  cached-HasAnswered kind identifier key fetch options s answers user good = (
    again-HasAnswered Good fetch _ answers (
        looked_up-IsSafe (user_cache_key prefix kind identifier) _ (ttl_of options)
          (user_tags options identifier)
          (fetch_and_cache-HasAnswered identifier fetch options (user_tags options identifier)
            answers)
          s user),
    again-HasAnswered Good fetch _ answers
        (looked_up-IsSafe key fetch (ttl_of options) (or_tags options.tags []) answers s good),
  )
