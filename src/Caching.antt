-- ===== src/Caching.antt =====
-- src/libs/caching/src/caching.service.ts: the cache of users and of other values, over the tagged
-- caches of the Redis client. Errors are dropped, or answered by fetching once more. `now` is the time
-- of a call, and `later` that at which a fetched value is stored.
pub mod Answers
pub mod Keys
pub mod Kept
pub mod Served
use Prim.Native.String.{String, ◌++◌}
use enix_backend.Base.{
  ℕ, ⊤, Bool, true, false, Option, none, some, List, [], ◌∷◌, ◌==◌, if◌then◌else◌,
}
use enix_backend.Effects.{Ended, returned, threw, Call, pure, after, ◌>>=◌, ◌>>◌}
use enix_backend.Redis.Client.{Client, Caches, command}
use enix_backend.Redis.Keys.{cache}
use enix_backend.Redis.Tags as Tags
use enix_backend.Redis.Tags.{Json, cache_set}

pub data LookupType : Type 0 where
  by_id by_username by_email by_websocket_id : LookupType

abbrev pub lookup_name : LookupType → String
lookup_name LookupType.by_id = "id"
lookup_name LookupType.by_username = "username"
lookup_name LookupType.by_email = "email"
lookup_name LookupType.by_websocket_id = "websocketId"

-- `getUserCacheKey`
abbrev pub user_cache_key : String → LookupType → String → String
user_cache_key prefix kind identifier = cache prefix ("user" ∷ lookup_name kind ∷ identifier ∷ [])

-- `CacheOptions`
pub record CacheOptions : Type 0 where
  pub ttl : Option ℕ
  pub tags : Option (List String)

-- `ttl || DEFAULT_USER_TTL` and `ttl || DEFAULT_GENERIC_TTL`, both of which are five minutes
abbrev pub or_default : Option ℕ → Option ℕ
or_default none = some 300
or_default (some n) = if n == 0 then some 300 else some n

abbrev pub ttl_of : CacheOptions → Option ℕ
ttl_of options = or_default options.ttl

abbrev pub or_tags : Option (List String) → List String → List String
or_tags none tags = tags
or_tags (some given) tags = given

-- `options.tags || ['user', ...]`
abbrev pub user_tags : CacheOptions → String → List String
user_tags options user_id = or_tags options.tags ("user" ∷ ("user:" ++ user_id) ∷ [])

-- what the service reads of a fetched value: whether it is a user at all, and his fields, none where
-- they are missing or empty
pub record UserFields (V : Type 0) : Type 0 where
  pub is_user : V → Bool
  pub id : V → Option String
  pub username : V → Option String
  pub email : V → Option String
  pub websocket_id : V → Option String

-- `user.id || identifier`
abbrev pub or_identifier : Option String → String → String
or_identifier none identifier = identifier
or_identifier (some id) identifier = id

module _ {S A : Type 0} where
  -- `catch (error) { ...; return fallback; }`
  abbrev pub or_else : A → Ended S A → Ended S A
  or_else fallback (returned a s) = returned a s
  or_else fallback (threw e s) = returned fallback s

  abbrev pub attempt : A → Call S A → Call S A
  attempt fallback m s = or_else fallback (m s)

  -- `catch (error) { ...; return await fetchFn(); }`
  abbrev pub or_again : Call S A → Ended S A → Ended S A
  or_again fetch (returned a s) = returned a s
  or_again fetch (threw e s) = fetch s

module _ {V W : Type 0} (redis : Caches W) (json : Json V W) (fields : UserFields V)
    (prefix : String) (now later : ℕ) where
  abbrev pub CacheClient : Type 0
  CacheClient = Tags.CacheClient redis

  abbrev pub store : ℕ → String → V → CacheOptions → List String → Call CacheClient ⊤
  store at key value options tags = cache_set redis json prefix at key value (ttl_of options) tags

  -- `if (user.username) { ... }`
  abbrev pub store_if :
      LookupType → Option String → V → CacheOptions → List String → Call CacheClient ⊤
  store_if kind none user options tags = pure tt
  store_if kind (some identifier) user options tags =
      store later (user_cache_key prefix kind identifier) user options tags

  unfoldable pub cache_user : String → V → CacheOptions → Call CacheClient ⊤
  unfolding cache_set
  cache_user user_id user options = attempt tt do
    store later (user_cache_key prefix LookupType.by_id user_id) user options
        (user_tags options user_id)
    store_if LookupType.by_username (fields.username user) user options (user_tags options user_id)
    store_if LookupType.by_email (fields.email user) user options (user_tags options user_id)
    store_if LookupType.by_websocket_id (fields.websocket_id user) user options
        (user_tags options user_id)

  -- `getCachedUser`, `getCachedUserByUsername`, `getCachedUserByEmail` and
  -- `getCachedUserByWebsocketId`
  unfoldable pub get_cached_user : LookupType → String → Call CacheClient (Option V)
  get_cached_user kind identifier =
      attempt none (Tags.get_value redis json now (user_cache_key prefix kind identifier))

  -- `if (user) { ... }`
  abbrev pub cache_fetched : Bool → String → V → CacheOptions → Call CacheClient ⊤
  cache_fetched false user_id user options = pure tt
  cache_fetched true user_id user options = cache_user user_id user options

  -- the function that `getOrSetUser` hands to `getOrSet`
  abbrev pub fetch_and_cache :
      String → Call CacheClient V → CacheOptions → List String → Call CacheClient V
  fetch_and_cache identifier fetch options tags = do
    user ← fetch
    cache_fetched (fields.is_user user) (or_identifier (fields.id user) identifier) user
        (record { ttl = ttl_of options; tags = some tags })
    pure user

  unfoldable pub get_or_set_user :
      LookupType → String → Call CacheClient V → CacheOptions → Call CacheClient V
  unfolding Tags.get_or_set cache_user
  get_or_set_user kind identifier fetch options s = or_again fetch (
      Tags.get_or_set redis json prefix now later (user_cache_key prefix kind identifier)
        (fetch_and_cache identifier fetch options (user_tags options identifier)) (ttl_of options)
        (user_tags options identifier) s)

  unfoldable pub invalidate_by_tags : List String → Call CacheClient ℕ
  unfolding Tags.invalidate_by_tags
  invalidate_by_tags tags = attempt 0 (Tags.invalidate_by_tags redis prefix now tags)

  unfoldable pub invalidate_user : String → Call CacheClient ⊤
  unfolding Tags.invalidate_by_tags
  invalidate_user user_id =
      attempt tt
        do Tags.invalidate_by_tags redis prefix now ("user" ∷ ("user:" ++ user_id) ∷ []); pure tt

  -- `invalidateUserByUsername`, `invalidateUserByEmail` and `invalidateUserByWebsocketId`
  unfoldable pub invalidate_user_by : LookupType → String → Call CacheClient ⊤
  unfolding Tags.invalidate_by_tags
  invalidate_user_by kind identifier = attempt tt do
    command (redis.del (user_cache_key prefix kind identifier ∷ []))
    Tags.invalidate_by_tags redis prefix now ("user" ∷ [])
    pure tt

  unfoldable pub get_or_set : String → Call CacheClient V → CacheOptions → Call CacheClient V
  unfolding Tags.get_or_set
  get_or_set key fetch options s = or_again fetch (
      Tags.get_or_set redis json prefix now later key fetch (ttl_of options)
        (or_tags options.tags []) s)

  unfoldable pub set : String → V → CacheOptions → Call CacheClient ⊤
  unfolding cache_set
  set key value options = attempt tt (store now key value options (or_tags options.tags []))

  unfoldable pub get : String → Call CacheClient (Option V)
  get key = attempt none (Tags.get_value redis json now key)

  unfoldable pub delete : String → Call CacheClient ⊤
  delete key = attempt tt do command (redis.del (key ∷ [])); pure tt
