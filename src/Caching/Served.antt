-- ===== src/Caching/Served.antt =====
-- The requests for a user after cacheUser has stored him.
use Prim.Native.String.{String}
use enix_backend.Base.{ℕ, ◌+◌, ◌*◌, ◌≤◌, ◌<◌, ◌≡◌, refl, sym, subst, some}
use enix_backend.Effects.{Call, returned, final}
use enix_backend.Redis.Client.{Client, Caches}
use enix_backend.Redis.Tags as Tags
use enix_backend.Redis.Tags.{Json, CacheClient}
use enix_backend.Redis.Tags.Covered.{calm}
use enix_backend.Caching.{
  LookupType, CacheOptions, UserFields, user_cache_key, ttl_of, user_tags, cache_user,
  get_cached_user, get_or_set_user,
}
use enix_backend.Caching.Kept.{IsUnder, or_default-pos, all_stored, all_stored-Held, cache_user-eq}

module _ {V W : Type 0} (redis : Caches W) (json : Json V W) (fields : UserFields V)
    (prefix : String) (begin now : ℕ) where
  -- the server, all commands of which work, after the user was cached
  abbrev pub cached_at : String → V → CacheOptions → redis.State → Client redis.State
  cached_at user_id user options s =
      final
        (cache_user redis json fields prefix begin now user_id user options (calm redis prefix s))

  -- If no command of Redis fails and JSON reads what it writes of a user as some value, then after
  -- cacheUser has stored the user, and until the time to live is over, looking for the user under
  -- his identifier, or under his name, his address or his WebSocket identifier where he has one,
  -- finds that value, and getOrSetUser answers with it without fetching and changes nothing.
  pub cache_user-IsServed :
      (user_id : String) (user : V) (options : CacheOptions) (s : redis.State) (ttl : ℕ)
      → ttl_of options ≡ some ttl
      → (parsed : V) → json.read (json.write user) ≡ some parsed
      → (kind : LookupType) (identifier : String) → IsUnder fields user_id user kind identifier
      → (t end : ℕ) (fetch : Call (CacheClient redis) V) (again : CacheOptions) → now ≤ t
      → t < now + 1000 * ttl
      → (get_cached_user redis json fields prefix t end kind identifier
            (cached_at user_id user options s)
          ≡ returned (some parsed) (cached_at user_id user options s))
        × (get_or_set_user redis json fields prefix t end kind identifier fetch again
              (cached_at user_id user options s)
            ≡ returned parsed (cached_at user_id user options s))
  unfolding get_cached_user get_or_set_user Tags.get_or_set
  cache_user-IsServed user_id user options s ttl span parsed reads kind identifier under t end fetch
        again from before =
      let names = user_tags options user_id in
      let held : redis.get t (user_cache_key prefix kind identifier)
            (all_stored redis json fields prefix begin now user_id user (ttl_of options) names s)
          ≡ some (json.write user) =
        subst
          (λ o.
            redis.get t (user_cache_key prefix kind identifier)
              (all_stored redis json fields prefix begin now user_id user o names s)
            ≡ some (json.write user))
          (sym span)
          (all_stored-Held redis json fields prefix begin now ttl
            (or_default-pos options.ttl ttl span) user_id user names kind identifier s under t from
            before) in
      rw (cache_user-eq redis json fields prefix begin now user_id user options s)
        (rw held (rw reads (refl, refl)))
