-- ===== src/Redis/Tags.antt =====
-- cacheSet, invalidateByTags and getOrSet of src/libs/redis/src/redis.service.ts. `Json` is what the
-- client makes of values. The commands of one call reach the server at one time, `now`.
pub mod Covered
pub mod Proper
pub mod Forgotten
pub mod Runs
pub mod Fresh
use Prim.Native.String.{String}
use enix_backend.Base.{ℕ, ◌+◌, ⊤, Bool, Option, none, some, List, [], ◌∷◌, ◌==◌, if◌then◌else◌}
use enix_backend.Effects.{Call, pure, after, ◌>>=◌, ◌>>◌}
use enix_backend.Redis.Client.{Client, Caches, command}
use enix_backend.Redis.Keys.{tag, tags_of}

-- `set` writes a text as it is and any other value as JSON, a list of tags too; `get` reads JSON, or takes
-- the text as it is where that fails. A value that is read as null is none. What is read of what was
-- written need not be the value: dates, for one, come back as texts.
pub record Json (V W : Type 0) : Type 0 where
  pub write : V → W
  pub write_tags : List String → W
  pub read : W → Option V

abbrev pub read_back : {V W : Type 0} → Json V W → Option W → Option V
read_back json none = none
read_back json (some text) = json.read text

-- `if (ttl)`
abbrev pub if_given : Option ℕ → Option ℕ
if_given none = none
if_given (some n) = if n == 0 then none else some n

module _ {W : Type 0} (redis : Caches W) where
  abbrev pub CacheClient : Type 0
  CacheClient = Client redis.State

  -- a command that only changes the server
  abbrev pub changes : (redis.State → redis.State) → Call CacheClient ⊤
  changes f = command (λ s. (tt, f s))

  abbrev pub expire_if : ℕ → String → Option ℕ → Call CacheClient ⊤
  expire_if now key none = pure tt
  expire_if now key (some ttl) = changes (redis.expire now key ttl)

  -- the loop of `cacheSet` over the tags
  abbrev pub add_tags : String → ℕ → String → Option ℕ → List String → Call CacheClient ⊤
  add_tags prefix now key ttl [] = pure tt
  add_tags prefix now key ttl (name ∷ names) = do
    changes (redis.sadd now (tag prefix name) key)
    expire_if now (tag prefix name) ttl
    add_tags prefix now key ttl names

  unfoldable pub cache_set :
      {V : Type 0}
      → Json V W
      → String
      → ℕ
      → String
      → V
      → Option ℕ
      → List String
      → Call CacheClient ⊤
  cache_set json prefix now key value ttl [] =
      changes (redis.set now key (json.write value) (if_given ttl))
  cache_set json prefix now key value ttl (name ∷ names) = do
    changes (redis.set now key (json.write value) (if_given ttl))
    changes (redis.set now (tags_of prefix key) (json.write_tags (name ∷ names)) (if_given ttl))
    add_tags prefix now key (if_given ttl) (name ∷ names)

  abbrev pub delete_tags_of : String → List String → Call CacheClient ⊤
  delete_tags_of prefix [] = pure tt
  delete_tags_of prefix (key ∷ keys) = do
    command (redis.del (tags_of prefix key ∷ []))
    delete_tags_of prefix keys

  -- what one tag of the loop takes away, of these members
  abbrev pub delete_members : String → String → List String → Call CacheClient ℕ
  delete_members prefix name [] = pure 0
  delete_members prefix name (key ∷ keys) = do
    deleted ← command (redis.del (key ∷ keys))
    delete_tags_of prefix (key ∷ keys)
    command (redis.del (tag prefix name ∷ []))
    pure deleted

  unfoldable pub invalidate_by_tags : String → ℕ → List String → Call CacheClient ℕ
  invalidate_by_tags prefix now [] = pure 0
  invalidate_by_tags prefix now (name ∷ names) = do
    keys ← command (λ s. (redis.members now (tag prefix name) s, s))
    deleted ← delete_members prefix name keys
    more ← invalidate_by_tags prefix now names
    pure (deleted + more)

  abbrev pub get_value : {V : Type 0} → Json V W → ℕ → String → Call CacheClient (Option V)
  get_value json now key = command (λ s. (read_back json (redis.get now key s), s))

  -- `fn` fetches the value, at some later time, at which it is stored.
  abbrev pub or_fetch :
      {V : Type 0}
      → Json V W
      → String
      → ℕ
      → String
      → Call CacheClient V
      → Option ℕ
      → List String
      → Option V
      → Call CacheClient V
  or_fetch json prefix later key fn ttl tags (some value) = pure value
  or_fetch json prefix later key fn ttl tags none = do
    value ← fn
    cache_set json prefix later key value ttl tags
    pure value

  unfoldable pub get_or_set :
      {V : Type 0}
      → Json V W
      → String
      → ℕ
      → ℕ
      → String
      → Call CacheClient V
      → Option ℕ
      → List String
      → Call CacheClient V
  unfolding cache_set
  get_or_set json prefix now later key fn ttl tags = do
    cached ← get_value json now key
    or_fetch json prefix later key fn ttl tags cached
