-- ===== src/Redis/Tags/Fresh.antt =====
-- A cached value, from the moment it is stored to the first request after an invalidation.
use Prim.Native.String.{String}
use enix_backend.Base.{
  ℕ, ◌+◌, ◌*◌, ◌≤◌, ◌<◌, ◌≡◌, refl, ap, subst, sym, true, ⊤, Option, none, some, List,
}
use enix_backend.Effects.{Call, final, pure, ◌>>=◌, ◌>>◌}
use enix_backend.Redis.Client.{Client, Caches, is_listed}
use enix_backend.Redis.Keys.{tag}
use enix_backend.Redis.Tags.{Json, invalidate_by_tags, cache_set, get_or_set, CacheClient}
use enix_backend.Redis.Tags.Covered.{calm, IsApart}
use enix_backend.Redis.Tags.Proper.{IsProper}
use enix_backend.Redis.Tags.Forgotten.{invalidate_by_tags-ends}
use enix_backend.Redis.Tags.Runs.{Reach, Sound, cache_set-eq, first_stored, no_tags_of, Reach-Sound}

module _ {V W : Type 0} (redis : Caches W) (json : Json V W) (prefix key mine : String)
    (apart : IsApart redis prefix key) where
  -- the server after a value was stored, and after an invalidation
  abbrev pub set_at : ℕ → V → ℕ → List String → redis.State → redis.State
  set_at now value ttl names s =
      (final
        (cache_set redis json prefix now key value (some ttl) names (calm redis prefix s))).server

  abbrev pub invalidated_at : ℕ → List String → redis.State → Client redis.State
  invalidated_at now names s =
      final (invalidate_by_tags redis prefix now names (calm redis prefix s))

  -- If no command of Redis fails, a value was stored with cacheSet, for a span of time above zero
  -- and under a tag whose set was not there and was no member of a set, and then, at later times,
  -- other requests stored other keys, each for a span that ends no sooner than that of the value,
  -- and invalidated any tags, then after invalidateByTags was called with the tag among its tags,
  -- getOrSet for the key never answers with the stored value: it does what fetching does, stores
  -- what was fetched and answers with it.
  pub get_or_set_fresh :
      (now ttl later : ℕ) (value : V) (names dropped : List String) (s u : redis.State)
      → 0 < ttl
      → IsProper redis prefix (tag prefix mine) s
      → redis.get now (tag prefix mine) s ≡ none
      → is_listed mine names ≡ true
      → Reach redis json prefix key mine
          (now + 1000 * ttl)
          apart
          now
          (set_at now value ttl names s)
          later
          u
      → is_listed mine dropped ≡ true
      → (t end : ℕ) (fn : Call (CacheClient redis) V) (span : Option ℕ) (tags : List String)
      → later ≤ t
      → get_or_set redis json prefix t end key fn span tags (invalidated_at later dropped u)
        ≡ (do fetched ← fn; cache_set redis json prefix end key fetched span tags; pure fetched)
            (invalidated_at later dropped u)
  unfolding get_or_set
  get_or_set_fresh now ttl later value names dropped s u pos proper free listed r named t end fn
        span tags order =
      let ends = now + 1000 * ttl in
      let start =
        subst (Sound redis json prefix key mine ends apart now)
          (ap (λ e. (final {S = Client redis.State} {A = ⊤} e).server)
            (sym (cache_set-eq redis json prefix now key value (some ttl) names s)))
          (first_stored redis json prefix key mine ends apart now value ttl names s pos refl listed
            proper free) in
      let (n, v, e, (sound, (stays, gone))) =
        invalidate_by_tags-ends redis prefix key mine ends apart
          (no_tags_of redis json prefix key mine ends apart) later dropped u
          (Reach-Sound redis json prefix key mine ends apart r start) in
      rw e (rw (gone named t order) refl)
