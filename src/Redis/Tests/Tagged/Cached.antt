-- ===== src/Redis/Tests/Tagged/Cached.antt =====
-- The theorems on cached values at a concrete server.
use Prim.Native.String.{String}
use text.Mathlib.Text.{◌==◌ as str_eq}
use text.Mathlib.TextPositions.{eq_refl}
use enix_backend.Base.{
  ℕ, subst, ◌≡◌, ◌≢◌, refl, ap, true, false, Option, none, some, List, [], ◌∷◌, arith,
}
use enix_backend.Effects.{returned, final, pure, ◌>>=◌, ◌>>◌}
use enix_backend.Redis.Client.{Client, is_listed}
use enix_backend.Redis.Tags.{Json, cache_set, invalidate_by_tags}
use enix_backend.Redis.Tags as Tags
use enix_backend.Redis.Tags.Covered.{calm}
use enix_backend.Redis.Tags.Runs.{here, next, store}
use enix_backend.Redis.Tags.Fresh.{set_at, invalidated_at, get_or_set_fresh}
use enix_backend.Redis.Tests.Tagged.{caches, Entries}
use enix_backend.Caching.{
  get_cached_user, LookupType, UserFields, CacheOptions, user_cache_key, get_or_set,
  get_or_set_user,
}
use enix_backend.Caching.Served.{cached_at, cache_user-IsServed}
use enix_backend.Caching.Keys.{user_cache_key-IsApart}
use enix_backend.Caching.Answers.{HasAnswered, cached-HasAnswered}

-- different texts
str_ne : {a b : String} → str_eq a b ≡ false → a ≢ b
str_ne {a} {b} h same = absurd (cc (h, eq_refl a, same))

-- values that are texts
abbrev texts : Json String String
texts = record { write = λ v. v; write_tags = λ xs. "tags"; read = some }

abbrev user_key : String
user_key = user_cache_key "app" LookupType.by_id "1"

abbrev marks : List String
marks = "user" ∷ "user:1" ∷ []

abbrev no_keys : Entries
no_keys k = none

abbrev user_stored : caches.State
unfolding caches
user_stored =
    set_at caches texts "app" user_key "user"
      (user_cache_key-IsApart caches "app" LookupType.by_id "1") 0 "old" 300 marks no_keys

-- another user is stored five milliseconds later, under the same tag and for longer
abbrev both_stored : caches.State
unfolding caches
both_stored =
    (final (
      cache_set caches texts "app" 5 "app:cache:user:id:2" "other" (some 600) marks
        (calm caches "app" user_stored))).server

get_or_set_fresh_example :
    Tags.get_or_set caches texts "app" 20 25 user_key (pure "new") (some 300) marks (
      invalidated_at caches texts "app" user_key "user"
        (user_cache_key-IsApart caches "app" LookupType.by_id "1")
        5
        ("user" ∷ [])
        both_stored)
    ≡ (do
      fetched ← pure "new"
      cache_set caches texts "app" 25 user_key fetched (some 300) marks
      pure fetched)
        (invalidated_at caches texts "app" user_key "user"
          (user_cache_key-IsApart caches "app" LookupType.by_id "1")
          5
          ("user" ∷ [])
          both_stored)
unfolding caches
get_or_set_fresh_example =
    get_or_set_fresh caches texts "app" user_key "user"
      (user_cache_key-IsApart caches "app" LookupType.by_id "1") 0 300 5 "old" marks ("user" ∷ [])
      no_keys both_stored (omega arith) (λ t set. refl) refl refl
      (next here (
        store "app:cache:user:id:2" "other" 600 marks (omega arith) (str_ne refl) (str_ne refl)
          (omega arith)))
      refl 20 25 (pure "new") (some 300) marks (omega arith)

-- values that are users by the name of their text
abbrev named : UserFields String
named = record {
  is_user = λ v. true;
  id = λ v. none;
  username = λ v. some v;
  email = λ v. none;
  websocket_id = λ v. none;
}

abbrev IsKnown : String → Type 0
IsKnown v = is_listed v ("old" ∷ "new" ∷ []) ≡ true

abbrev failing : Client caches.State
failing = record { server = user_stored; faults = false ∷ false ∷ true ∷ [] }

abbrev or_empty : Option String → String
or_empty none = ""
or_empty (some v) = v

known : (v : String) → some "old" ≡ some v → IsKnown v
known v e = subst IsKnown (ap or_empty e) refl

abbrev options : CacheOptions
options = record { ttl = none; tags = none }

nothing : (v : String) → none ≡ some v → IsKnown v
nothing v e = absurd (cc e)

cached-HasAnswered_example :
    HasAnswered IsKnown (
      get_or_set_user caches texts named "app" 20 25 LookupType.by_username "ann"
        (pure "new")
        options
        failing)
    × HasAnswered IsKnown
        (get_or_set caches texts named "app" 20 25 user_key (pure "new") options failing)
unfolding caches cache_set
cached-HasAnswered_example =
    cached-HasAnswered caches texts named "app" 20 25 IsKnown LookupType.by_username "ann" user_key
      (pure "new") options failing (λ u. refl) nothing known

-- a user with a date, and a user as JSON gives him back, whose date is a text
data Person : Type 0 where
  dated : String → ℕ → Person
  parsed : String → Person

abbrev name_in : Person → String
name_in (dated name t) = name
name_in (parsed name) = name

abbrev people : Json Person String
people = record { write = name_in; write_tags = λ xs. "tags"; read = λ t. some (parsed t) }

abbrev by_name : UserFields Person
by_name = record {
  is_user = λ v. true;
  id = λ v. none;
  username = λ v. some (name_in v);
  email = λ v. none;
  websocket_id = λ v. none;
}

abbrev ann_cached : Client caches.State
ann_cached = cached_at caches people by_name "app" 0 5 "1" (dated "ann" 4) options user_stored

cache_user-IsServed_example :
    (get_cached_user caches people by_name "app" 7 9 LookupType.by_username "ann" ann_cached
      ≡ returned (some (parsed "ann")) ann_cached)
    × (get_or_set_user caches people by_name "app" 7 9 LookupType.by_username "ann"
          (pure (dated "new" 8))
          options
          ann_cached
        ≡ returned (parsed "ann") ann_cached)
cache_user-IsServed_example =
    cache_user-IsServed caches people by_name "app" 0 5 "1" (dated "ann" 4) options user_stored 300
      refl (parsed "ann") refl LookupType.by_username "ann" refl 7 9 (pure (dated "new" 8)) options
      (omega arith) (omega arith)
